-- ===== src/KvStore/Reactor/Steps.antt =====
-- Every handler of a connection of kv_store leaves the connection in one of its phases, and touches
-- nothing else that the reactor or epoll holds.
use learn_space.Base.{
  ℕ, ◌≡◌, ◌≢◌, ◌∙◌, refl, sym, ap, Option, some, update_self, update_ne, eq→==, ne→==, Returned,
  Returned->>=,
}
use learn_space.KvStore.Text.{remove_front}
use learn_space.KvStore.Protocol.{analysis}
use learn_space.Epoll.{no_fd, Epoll}
use learn_space.KvStore.Reactor.{flags_of, EventObj, absent, Reactor, written, store}
use learn_space.KvStore.Reactor.Handlers.{Site, save, happen_error, recv_imp}
use learn_space.KvStore.Reactor.Phases.{
  Phase, live, dead, gone, Apart, Apart-refl, Apart-trans, save-Apart, save-slot,
}

module _ {S : Type 0} (e : Epoll S) (key : ℕ) (valid : key ≢ no_fd) where
  -- The connection under the key is in a phase, and nothing is entered under -1.
  pub record Sound (x : Site e) : Type 0 where
    pub phase : Phase e key x
    pub vacant : x.0.objects no_fd ≡ absent

  -- A site that was left sound, with the rest of the reactor as it was.
  pub record Leaves (r : Reactor S) (y : Site e) : Type 0 where
    pub sound : Sound y
    pub apart : Apart e key r y.0

  pub leaves :
      (r : Reactor S) (y : Site e)
      → r.objects no_fd ≡ absent
      → Phase e key y
      → Apart e key r y.0
      → Leaves r y
  leaves r y v p a = record {
    sound = record { phase = p; vacant = a.objects_same no_fd (λ q. valid (sym q)) ∙ v };
    apart = a;
  }

  pub leaves-leaves : (r : Reactor S) (y z : Site e) → Leaves r y → Leaves y.0 z → Leaves r z
  leaves-leaves r y z a b = record { sound = b.sound; apart = Apart-trans e a.apart b.apart }

  pub leaves-self : (x : Site e) → Sound x → Leaves x.0 x
  leaves-self x s = record { sound = s; apart = Apart-refl e key x.0 }

  save-Phase :
      (r : Reactor S) (o o' : EventObj)
      → o'.fd ≡ o.fd
      → flags_of o' ≡ flags_of o
      → Phase e key (r, o)
      → Phase e key (save e key r o')
  unfolding save store
  save-Phase r o o' hf hg (live h i w) =
      live (save-slot e key r o' ∙ ap (λ s. written s o') h) (hf ∙ i)
        (w ∙ ap (λ f. some f) (sym hg))
  save-Phase r o o' hf hg (dead h i w) =
      dead (save-slot e key r o' ∙ ap (λ s. written s o') h) (hf ∙ i) w
  save-Phase r o o' hf hg (gone h i w) =
      gone (save-slot e key r o' ∙ ap (λ s. written s o') h) (hf ∙ i) w

  pub save-Leaves :
      (r : Reactor S) (o o' : EventObj)
      → o'.fd ≡ o.fd
      → flags_of o' ≡ flags_of o
      → Sound (r, o)
      → Leaves r (save e key r o')
  save-Leaves r o o' hf hg s =
      leaves r (save e key r o') s.vacant (save-Phase r o o' hf hg s.phase) (save-Apart e key r o')

  pub recv_imp-Leaves :
      (r : Reactor S) (o : EventObj) → Sound (r, o) → Returned (Leaves r) (recv_imp e key (r, o))
  unfolding recv_imp
  recv_imp-Leaves r o s = Returned->>= (Leaves r) (analysis o.recv_buffer) _ (λ used.
      Returned->>= (Leaves r) (remove_front o.recv_buffer used) _
        (λ left. save-Leaves r o (record o { recv_buffer = left }) refl refl s))

  happen_error-Phase :
      (r : Reactor S) (o : EventObj) → Phase e key (r, o) → Phase e key (happen_error e key (r, o))
  unfolding happen_error save store
  happen_error-Phase r o (live h i w) = rw (ne→== o.fd no_fd (λ p. valid (sym i ∙ p))) (
      dead (update_self r.objects key _ refl ∙ ap (λ s. written s (record o { fd = no_fd })) h) refl
        (ap (λ g. g key) (e.close_open r.epoll o.fd (λ p. valid (sym i ∙ p)))
          ∙ update_self (e.interest r.epoll) o.fd Option.none i))
  happen_error-Phase r o (dead h i w) = rw (eq→== o.fd no_fd i) (dead h i w)
  happen_error-Phase r o (gone h i w) = rw (eq→== o.fd no_fd i) (gone h i w)

  happen_error-Apart :
      (r : Reactor S) (o : EventObj)
      → Phase e key (r, o)
      → Apart e key r (happen_error e key (r, o)).0
  unfolding happen_error save store
  happen_error-Apart r o (live h i w) =
      let n = λ (p : o.fd ≡ no_fd). valid (sym i ∙ p) in
      rw (ne→== o.fd no_fd n) (record {
        objects_same = λ k m. update_ne r.objects key _ (λ p. m (sym p));
        interest_same = λ k m.
            ap (λ g. g k) (e.close_open r.epoll o.fd n)
            ∙ update_ne (e.interest r.epoll) o.fd Option.none (λ p. m (sym p ∙ i));
      })
  happen_error-Apart r o (dead h i w) = rw (eq→== o.fd no_fd i) (Apart-refl e key r)
  happen_error-Apart r o (gone h i w) = rw (eq→== o.fd no_fd i) (Apart-refl e key r)

  pub happen_error-Leaves :
      (r : Reactor S) (o : EventObj) → Sound (r, o) → Leaves r (happen_error e key (r, o))
  happen_error-Leaves r o s =
      leaves r (happen_error e key (r, o)) s.vacant (happen_error-Phase r o s.phase)
        (happen_error-Apart r o s.phase)

  pub after-Leaves : (r r1 : Reactor S) (z : Site e) → Apart e key r r1 → Leaves r1 z → Leaves r z
  after-Leaves r r1 z a l = record { sound = l.sound; apart = Apart-trans e a l.apart }

-- ===== src/KvStore/Reactor/Phases.antt =====
-- The phases of a connection of kv_store between `ReactorServer` and epoll: watched, closed with its
-- object still in `_eventMap`, and gone from it.
use learn_space.Base.{ℕ, ◌≡◌, ◌≢◌, ◌∙◌, refl, sym, ap, Option, some, update, update_self, update_ne}
use learn_space.Epoll.{no_fd, Flags, Epoll}
use learn_space.KvStore.Reactor.{
  flags_of, EventObj, absent, held, Reactor, written, store, watch, remove_event_obj,
}
use learn_space.KvStore.Reactor.Handlers.{Site, save}

module _ {S : Type 0} (e : Epoll S) where
  pub data Phase (key : ℕ) (x : Site e) : Type 0 where
    live :
        x.0.objects key ≡ held x.1
        → x.1.fd ≡ key
        → e.interest x.0.epoll key ≡ some (flags_of x.1)
        → Phase key x
    dead :
        x.0.objects key ≡ held x.1
        → x.1.fd ≡ no_fd
        → e.interest x.0.epoll key ≡ Option.none
        → Phase key x
    gone :
        x.0.objects key ≡ absent
        → x.1.fd ≡ no_fd
        → e.interest x.0.epoll key ≡ Option.none
        → Phase key x

  -- The two reactors agree but on one key.
  pub record Apart (key : ℕ) (r r' : Reactor S) : Type 0 where
    pub objects_same : (k : ℕ) → k ≢ key → r'.objects k ≡ r.objects k
    pub interest_same : (k : ℕ) → k ≢ key → e.interest r'.epoll k ≡ e.interest r.epoll k

  pub Apart-refl : (key : ℕ) (r : Reactor S) → Apart key r r
  Apart-refl key r = record { objects_same = λ k n. refl; interest_same = λ k n. refl }

  pub Apart-trans :
      {key : ℕ} {r r' r'' : Reactor S} → Apart key r r' → Apart key r' r'' → Apart key r r''
  Apart-trans a b = record {
    objects_same = λ k n. b.objects_same k n ∙ a.objects_same k n;
    interest_same = λ k n. b.interest_same k n ∙ a.interest_same k n;
  }

  pub save-Apart : (key : ℕ) (r : Reactor S) (o : EventObj) → Apart key r (save e key r o).0
  unfolding save store
  save-Apart key r o = record {
    objects_same = λ k n. update_ne r.objects key (written (r.objects key) o) (λ p. n (sym p));
    interest_same = λ k n. refl;
  }

  pub save-slot :
      (key : ℕ) (r : Reactor S) (o : EventObj)
      → (save e key r o).0.objects key ≡ written (r.objects key) o
  unfolding save store
  save-slot key r o = update_self r.objects key (written (r.objects key) o) refl

  -- What the watched object is watched for, changed.
  pub watch-interest :
      (r : Reactor S) (o : EventObj) (f : Flags)
      → o.fd ≢ no_fd
      → e.interest r.epoll o.fd ≡ some f
      → e.interest (watch e r o).epoll ≡ update (e.interest r.epoll) o.fd (some (flags_of o))
  unfolding watch
  watch-interest r o f valid h =
      let a = e.add_again r.epoll o.fd (flags_of o) f valid h in
      let s = (e.ctl_add r.epoll o.fd (flags_of o)).0 in
      rw a.0 (
        e.mod_again s o.fd (flags_of o) f valid (ap (λ g. g o.fd) a.1 ∙ h)
        ∙ ap (λ g. update g o.fd (some (flags_of o))) a.1)

  -- An object that is watched anew.
  pub watch-new :
      (r : Reactor S) (o : EventObj)
      → o.fd ≢ no_fd
      → e.interest r.epoll o.fd ≡ Option.none
      → e.interest (watch e r o).epoll ≡ update (e.interest r.epoll) o.fd (some (flags_of o))
  unfolding watch
  watch-new r o valid h = let a = e.add_new r.epoll o.fd (flags_of o) valid h in rw a.0 a.1

  -- `removeEventObj` and `close` of an open descriptor.
  pub closed-interest :
      (r : Reactor S) (fd : ℕ)
      → fd ≢ no_fd
      → e.interest (e.close (remove_event_obj e r fd).epoll fd) fd ≡ Option.none
  unfolding remove_event_obj
  closed-interest r fd valid =
      ap (λ g. g fd) (e.close_open (e.ctl_del r.epoll fd) fd valid)
      ∙ update_self (e.interest (e.ctl_del r.epoll fd)) fd Option.none refl

  pub closed-apart :
      (r : Reactor S) (fd k : ℕ)
      → fd ≢ no_fd
      → k ≢ fd
      → e.interest (e.close (remove_event_obj e r fd).epoll fd) k ≡ e.interest r.epoll k
  unfolding remove_event_obj
  closed-apart r fd k valid n =
      let m = λ (p : fd ≡ k). n (sym p) in
      ap (λ g. g k) (e.close_open (e.ctl_del r.epoll fd) fd valid)
      ∙ update_ne (e.interest (e.ctl_del r.epoll fd)) fd Option.none m
      ∙ ap (λ g. g k) (e.del_open r.epoll fd valid)
      ∙ update_ne (e.interest r.epoll) fd Option.none m

  pub closed-nothing :
      (r : Reactor S)
      → e.interest (e.close (remove_event_obj e r no_fd).epoll no_fd) ≡ e.interest r.epoll
  unfolding remove_event_obj
  closed-nothing r = e.close_closed (e.ctl_del r.epoll no_fd) ∙ e.del_closed r.epoll

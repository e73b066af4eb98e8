-- ===== src/KvStore/Reactor/Retyping.antt =====
-- `updateEventObj` and `sendImp` of a connection of kv_store leave it in its phase.
use learn_space.Base.{
  ℕ, ◌≡◌, ◌≢◌, ◌∙◌, refl, sym, ap, some, ok, update_self, update_ne, Bool-cases, inl, inr, Returned,
  Returned-then, Returned-weaken,
}
use learn_space.Epoll.{no_fd, Flags, Epoll}
use learn_space.KvStore.Reactor.{
  read, flags_of, EventObj, absent, held, Reactor, written, store, watch, update_event_obj,
}
use learn_space.KvStore.Reactor.Handlers.{save, is_empty, send_imp}
use learn_space.KvStore.Reactor.Phases.{
  Phase, live, dead, gone, save-Apart, save-slot, watch-interest,
}
use learn_space.KvStore.Reactor.Steps.{Sound, Leaves, leaves, leaves-self, after-Leaves}

module _ {S : Type 0} (e : Epoll S) (key : ℕ) (valid : key ≢ no_fd) where
  -- `updateEventObj` of a connection that is watched.
  update_live :
      (r : Reactor S) (o : EventObj) (f : Flags)
      → r.objects no_fd ≡ absent
      → o.fd ≡ key
      → r.objects key ≡ held o
      → e.interest r.epoll key ≡ some f
      → Returned (λ r2. Leaves e key valid r (r2, o)) (update_event_obj e r o.fd)
  unfolding update_event_obj watch
  update_live r o f v i h w =
      let n = λ (p : o.fd ≡ no_fd). valid (sym i ∙ p) in
      let u = watch-interest e r o f n (ap (e.interest r.epoll) i ∙ w) in
      rw (ap r.objects i ∙ h) (
        leaves e key valid r (watch e r o, o) v
          (live h i (ap (λ g. g key) u ∙ update_self (e.interest r.epoll) o.fd _ i))
          (record {
            objects_same = λ k m. refl;
            interest_same =
                λ k m. ap (λ g. g k) u ∙ update_ne (e.interest r.epoll) o.fd _ (λ p. m (sym p ∙ i));
          }))

  update_idle :
      (r : Reactor S) (o : EventObj)
      → r.objects no_fd ≡ absent
      → o.fd ≡ no_fd
      → update_event_obj e r o.fd ≡ ok r
  unfolding update_event_obj
  update_idle r o v i = rw (ap r.objects i ∙ v) refl

  -- A connection that is closed, or gone, with its new fields written.
  idle_save :
      (r : Reactor S) (o' : EventObj)
      → r.objects no_fd ≡ absent
      → o'.fd ≡ no_fd
      → Phase e key (save e key r o')
      → Returned
          (λ r2. Leaves e key valid r (r2, o'))
          (update_event_obj e (save e key r o').0 o'.fd)
  unfolding save
  idle_save r o' v i p =
      let l = leaves e key valid r (save e key r o') v p (save-Apart e key r o') in
      rw (update_idle (save e key r o').0 o' l.sound.vacant i) l

  -- The new fields are written, and epoll told of the type.
  pub retyped :
      (r : Reactor S) (o o' : EventObj)
      → o'.fd ≡ o.fd
      → Sound e key valid (r, o)
      → Returned
          (λ r2. Leaves e key valid r (r2, o'))
          (update_event_obj e (save e key r o').0 o'.fd)
  unfolding save store
  retyped r o o' hf s = elim s.phase [
    | live h i w ↦
        let r1 = (save e key r o').0 in
        let a = save-Apart e key r o' in
        Returned-weaken _ _ (update_event_obj e r1 o'.fd)
          (λ r2 l. after-Leaves e key valid r r1 (r2, o') a l)
          (update_live r1 o' (flags_of o) (a.objects_same no_fd (λ q. valid (sym q)) ∙ s.vacant)
            (hf ∙ i) (save-slot e key r o' ∙ ap (λ t. written t o') h) w)
    | dead h i w ↦
        idle_save r o' s.vacant (hf ∙ i)
          (dead (save-slot e key r o' ∙ ap (λ t. written t o') h) (hf ∙ i) w)
    | gone h i w ↦
        idle_save r o' s.vacant (hf ∙ i)
          (gone (save-slot e key r o' ∙ ap (λ t. written t o') h) (hf ∙ i) w)
  ]

  pub send_imp-Leaves :
      (r : Reactor S) (o : EventObj)
      → Sound e key valid (r, o)
      → Returned (Leaves e key valid r) (send_imp e key (r, o))
  unfolding send_imp save
  send_imp-Leaves r o s = elim (Bool-cases (is_empty o.send_buffer)) [
    | inl empty ↦ rw empty (
        Returned-then (λ r2. Leaves e key valid r (r2, record o { type = read }))
          (Leaves e key valid r) _ _ (retyped r o (record o { type = read }) refl s) (λ r2 l. l))
    | inr more ↦ rw more (leaves-self e key valid (r, o) s)
  ]

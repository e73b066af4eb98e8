-- ===== src/KvStore/Reactor/Closing.antt =====
-- `closeImp` of a connection of kv_store leaves it gone, or as closed as it was.
use learn_space.Base.{
  ℕ, ◌≡◌, ◌≢◌, ◌∙◌, refl, sym, ap, Option, update_self, update_ne, ◌==◌, Bool-cases, ==_iff, ==→ne,
  inl, inr,
}
use learn_space.Epoll.{no_fd, Epoll}
use learn_space.KvStore.Reactor.{
  EventObj, Slot, absent, held, Reactor, written, store, remove_event_obj,
}
use learn_space.KvStore.Reactor.Handlers.{save, close_imp}
use learn_space.KvStore.Reactor.Phases.{
  Phase, live, dead, gone, closed-interest, closed-apart, closed-nothing,
}
use learn_space.KvStore.Reactor.Steps.{Sound, Leaves, leaves}

module _ {S : Type 0} (e : Epoll S) (key : ℕ) (valid : key ≢ no_fd) where
  -- `closeImp` of an open connection.
  pub freed :
      (r : Reactor S) (o : EventObj)
      → o.fd ≡ key
      → ((close_imp e key (r, o)).0.objects key ≡ absent)
        × (e.interest (close_imp e key (r, o)).0.epoll key ≡ Option.none)
  unfolding close_imp save store remove_event_obj
  freed r o i = (
    update_self (remove_event_obj e r o.fd).objects key _ refl
        ∙ ap (λ s. written s (record o { fd = no_fd })) (update_self r.objects o.fd absent i),
    ap (e.interest _) (sym i) ∙ closed-interest e r o.fd (λ p. valid (sym i ∙ p)),
  )

  close_live :
      (r : Reactor S) (o : EventObj)
      → r.objects no_fd ≡ absent
      → o.fd ≡ key
      → Leaves e key valid r (close_imp e key (r, o))
  unfolding close_imp save store remove_event_obj
  close_live r o v i =
      let f = freed r o i in
      leaves e key valid r (close_imp e key (r, o)) v (gone f.0 refl f.1) (record {
        objects_same = λ k m.
            update_ne (remove_event_obj e r o.fd).objects key _ (λ p. m (sym p))
            ∙ update_ne r.objects o.fd absent (λ p. m (sym p ∙ i));
        interest_same = λ k m. closed-apart e r o.fd k (λ p. valid (sym i ∙ p)) (λ p. m (p ∙ i));
      })

  -- Of a connection that is closed already, nothing is changed.
  close_slot :
      (r : Reactor S) (o : EventObj) (k : ℕ)
      → r.objects no_fd ≡ absent
      → o.fd ≡ no_fd
      → (remove_event_obj e r o.fd).objects k ≡ r.objects k
  unfolding remove_event_obj
  close_slot r o k v i = elim (Bool-cases (k == no_fd)) [
    | inl p ↦
        let q = (==_iff k no_fd).0 p in
        update_self r.objects o.fd absent (i ∙ sym q) ∙ sym v ∙ ap r.objects (sym q)
    | inr n ↦ update_ne r.objects o.fd absent (λ q. ==→ne k no_fd n (sym q ∙ i))
  ]

  close_watched :
      (r : Reactor S) (o : EventObj)
      → o.fd ≡ no_fd
      → e.interest (close_imp e key (r, o)).0.epoll ≡ e.interest r.epoll
  unfolding close_imp save store
  close_watched r o i =
      ap (λ n. e.interest (e.close (remove_event_obj e r n).epoll n)) i ∙ closed-nothing e r

  close_idle :
      (r : Reactor S) (o : EventObj)
      → r.objects no_fd ≡ absent
      → o.fd ≡ no_fd
      → Phase e key (close_imp e key (r, o))
      → Leaves e key valid r (close_imp e key (r, o))
  unfolding close_imp save store
  close_idle r o v i p = leaves e key valid r (close_imp e key (r, o)) v p (record {
    objects_same = λ k m.
        update_ne (remove_event_obj e r o.fd).objects key _ (λ q. m (sym q)) ∙ close_slot r o k v i;
    interest_same = λ k m. ap (λ g. g k) (close_watched r o i);
  })

  -- The slot under the key, after `closeImp` of a connection that is closed already.
  idle_slot :
      (r : Reactor S) (o : EventObj) (s : Slot)
      → r.objects no_fd ≡ absent
      → o.fd ≡ no_fd
      → r.objects key ≡ s
      → (close_imp e key (r, o)).0.objects key ≡ written s (record o { fd = no_fd })
  unfolding close_imp save store
  idle_slot r o s v i h =
      update_self (remove_event_obj e r o.fd).objects key _ refl
      ∙ ap (λ t. written t (record o { fd = no_fd })) (close_slot r o key v i ∙ h)

  pub close_imp-Leaves :
      (r : Reactor S) (o : EventObj)
      → Sound e key valid (r, o)
      → Leaves e key valid r (close_imp e key (r, o))
  unfolding close_imp save store
  close_imp-Leaves r o s = elim s.phase [
    | live h i w ↦ close_live r o s.vacant i
    | dead h i w ↦ close_idle r o s.vacant i (
        dead (idle_slot r o (held o) s.vacant i h) refl (ap (λ g. g key) (close_watched r o i) ∙ w))
    | gone h i w ↦
        close_idle r o s.vacant i (
          gone (idle_slot r o absent s.vacant i h) refl (ap (λ g. g key) (close_watched r o i) ∙ w))
  ]

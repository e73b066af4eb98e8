-- ===== src/KvStore/Reactor/Reuse.antt =====
-- What becomes of a client of kv_store that is accepted on a descriptor that was closed before.
use learn_space.Base.{ℕ, ◌≡◌, ◌≢◌, ◌∙◌, refl, sym, ap, Option, some, ok, update, update_self, ne→==}
use learn_space.Epoll.{no_fd, Epoll}
use learn_space.KvStore.Reactor.{
  flags_of, EventObj, absent, held, Reactor, written, store, watch, update_event_obj, add_event_obj,
}
use learn_space.KvStore.Reactor.Handlers.{new_client, save, happen_error, close_imp, on_accept}
use learn_space.KvStore.Reactor.Phases.{watch-new}
use learn_space.KvStore.Reactor.Closing.{freed}

module _ {S : Type 0} (e : Epoll S) where
  -- The slot of a connection after `happenError`.
  error_slot :
      (key : ℕ) (r : Reactor S) (o : EventObj)
      → key ≢ no_fd
      → r.objects key ≡ held o
      → o.fd ≡ key
      → (happen_error e key (r, o)).0.objects key ≡ held (record o { fd = no_fd })
  unfolding happen_error save store
  error_slot key r o valid h i =
      rw (ne→== o.fd no_fd (λ p. valid (sym i ∙ p)))
        (update_self r.objects key _ refl ∙ ap (λ s. written s (record o { fd = no_fd })) h)

  taken :
      (key : ℕ) (r : Reactor S) (p : EventObj)
      → r.objects key ≡ held p
      → on_accept e r (some key) ≡ ok (record r { epoll = e.close r.epoll key })
  unfolding on_accept add_event_obj
  taken key r p h = rw h (rw h refl)

  -- After `happenError` of an open connection its closed object stays in `_eventMap`, so a client
  -- that is then accepted on the same descriptor is not entered, and is closed at once.
  pub error_blocks :
      (key : ℕ) (r : Reactor S) (o : EventObj)
      → key ≢ no_fd
      → r.objects key ≡ held o
      → o.fd ≡ key
      → let r1 = (happen_error e key (r, o)).0 in
        (on_accept e r1 (some key) ≡ ok (record r1 { epoll = e.close r1.epoll key }))
        × (r1.objects key ≡ held (record o { fd = no_fd }))
  error_blocks key r o valid h i =
      let s = error_slot key r o valid h i in
      (taken key (happen_error e key (r, o)).0 (record o { fd = no_fd }) s, s)

  -- A client whose key is free is entered and watched.
  entered_anew :
      (key : ℕ) (r : Reactor S)
      → key ≢ no_fd
      → r.objects key ≡ absent
      → e.interest r.epoll key ≡ Option.none
      → (r2 : Reactor S) × (on_accept e r (some key) ≡ ok r2)
        × (r2.objects key ≡ held (new_client key))
        × (e.interest r2.epoll key ≡ some (flags_of (new_client key)))
  unfolding on_accept add_event_obj update_event_obj watch
  entered_anew key r valid h w =
      let o = new_client key in
      let r1 = record r { objects = update r.objects key (held o) } in
      let slot : r1.objects key ≡ held o = update_self r.objects key (held o) refl in
      (
        watch e r1 o,
        rw h (rw h (rw slot refl)),
        slot,
        ap (λ g. g key) (watch-new e r1 o valid w) ∙ update_self (e.interest r.epoll) key _ refl,
      )

  -- After `closeImp` of an open connection, a client that is accepted on the same descriptor is
  -- entered in `_eventMap` and watched for input.
  pub close_frees :
      (key : ℕ) (r : Reactor S) (o : EventObj)
      → key ≢ no_fd
      → o.fd ≡ key
      → (r2 : Reactor S) × (on_accept e (close_imp e key (r, o)).0 (some key) ≡ ok r2)
        × (r2.objects key ≡ held (new_client key))
        × (e.interest r2.epoll key ≡ some (flags_of (new_client key)))
  close_frees key r o valid i =
      let f = freed e key valid r o i in entered_anew key (close_imp e key (r, o)).0 valid f.0 f.1

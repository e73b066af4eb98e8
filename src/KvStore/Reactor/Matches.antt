-- ===== src/KvStore/Reactor/Matches.antt =====
-- The loop of `ReactorServer::doRun` of kv_store keeps `_eventMap` and epoll in agreement.
use mathlib.Core.Path.{subst}
use learn_space.Base.{
  ℕ, ◌≡◌, ◌≢◌, ◌∙◌, refl, sym, ap, Option, some, update, update_self, update_ne, ◌==◌, ==→ne,
  ==_iff, Bool-cases, inl, inr, Returned,
}
use learn_space.Epoll.{no_fd, Epoll}
use learn_space.KvStore.Reactor.{
  flags_of, EventObj, Slot, absent, null, held, Reactor, watch, update_event_obj, add_slot,
  add_event_obj,
}
use learn_space.KvStore.Reactor.Handlers.{Site, new_client, on_accept, accept_slot}
use learn_space.KvStore.Reactor.Phases.{Phase, live, dead, gone, Apart, watch-new}

module _ {S : Type 0} (e : Epoll S) where
  -- What epoll watches a descriptor for is what the object in `_eventMap` asks for.
  pub data Agrees (k : ℕ) (r : Reactor S) : Type 0 where
    nothing : r.objects k ≡ absent → e.interest r.epoll k ≡ Option.none → Agrees k r
    null_pointer : r.objects k ≡ null → e.interest r.epoll k ≡ Option.none → Agrees k r
    watched :
        (o : EventObj)
        → r.objects k ≡ held o
        → o.fd ≡ k
        → e.interest r.epoll k ≡ some (flags_of o)
        → Agrees k r
    closed :
        (o : EventObj)
        → r.objects k ≡ held o
        → o.fd ≡ no_fd
        → e.interest r.epoll k ≡ Option.none
        → Agrees k r

  pub record Matches (listen : ℕ) (r : Reactor S) : Type 0 where
    pub each : (k : ℕ) → k ≢ listen → k ≢ no_fd → Agrees k r
    pub vacant : r.objects no_fd ≡ absent

  pub Agrees-same :
      {k : ℕ} {r r' : Reactor S}
      → r'.objects k ≡ r.objects k
      → e.interest r'.epoll k ≡ e.interest r.epoll k
      → Agrees k r
      → Agrees k r'
  Agrees-same so si (nothing h w) = nothing (so ∙ h) (si ∙ w)
  Agrees-same so si (null_pointer h w) = null_pointer (so ∙ h) (si ∙ w)
  Agrees-same so si (watched o h i w) = watched o (so ∙ h) i (si ∙ w)
  Agrees-same so si (closed o h i w) = closed o (so ∙ h) i (si ∙ w)

  pub Phase-Agrees : {k : ℕ} (x : Site e) → Phase e k x → Agrees k x.0
  Phase-Agrees x (live h i w) = watched x.1 h i w
  Phase-Agrees x (dead h i w) = closed x.1 h i w
  Phase-Agrees x (gone h i w) = nothing h w

  pub Agrees-Phase :
      {k : ℕ} (r : Reactor S) (o : EventObj) → r.objects k ≡ held o → Agrees k r → Phase e k (r, o)
  Agrees-Phase r o same (nothing h w) = absurd (cc (sym h ∙ same))
  Agrees-Phase r o same (null_pointer h w) = absurd (cc (sym h ∙ same))
  Agrees-Phase r o same (watched p h i w) =
      let q : p ≡ o = cc (sym h ∙ same) in
      live same (ap (λ u. u.fd) (sym q) ∙ i) (w ∙ ap (λ u. some (flags_of u)) q)
  Agrees-Phase r o same (closed p h i w) =
      let q : p ≡ o = cc (sym h ∙ same) in dead same (ap (λ u. u.fd) (sym q) ∙ i) w

  -- A change at one key only.
  pub change :
      {listen : ℕ} (key : ℕ) (r r' : Reactor S)
      → key ≢ no_fd
      → Apart e key r r'
      → Agrees key r'
      → Matches listen r
      → Matches listen r'
  change key r r' valid a g m = record {
    each = λ k n v. elim (Bool-cases (k == key)) [
      | inl p ↦ subst (λ j. Agrees j r') (sym ((==_iff k key).0 p)) g
      | inr p ↦
          let q = ==→ne k key p in
          Agrees-same (a.objects_same k q) (a.interest_same k q) (m.each k n v)
    ];
    vacant = a.objects_same no_fd (λ q. valid (sym q)) ∙ m.vacant;
  }

  -- `addEventObj` of an object whose key is free.
  add_free :
      (listen : ℕ) (r : Reactor S) (o : EventObj)
      → o.fd ≢ no_fd
      → e.interest r.epoll o.fd ≡ Option.none
      → Matches listen r
      → Returned (Matches listen) (add_slot e r o absent)
  unfolding update_event_obj watch
  add_free listen r o valid w m =
      let r1 = record r { objects = update r.objects o.fd (held o) } in
      let slot : r1.objects o.fd ≡ held o = update_self r.objects o.fd (held o) refl in
      let u = watch-new e r1 o valid w in
      rw slot (
        change o.fd r (watch e r1 o) valid
          (record {
            objects_same = λ k n. update_ne r.objects o.fd (held o) (λ p. n (sym p));
            interest_same =
                λ k n. ap (λ g. g k) u ∙ update_ne (e.interest r.epoll) o.fd _ (λ p. n (sym p));
          })
          (watched o slot refl (ap (λ g. g o.fd) u ∙ update_self (e.interest r.epoll) o.fd _ refl))
          m)

  -- The descriptor of a client that was not entered, closed again.
  closed-again :
      (listen : ℕ) (r : Reactor S) (fd : ℕ)
      → fd ≢ no_fd
      → e.interest r.epoll fd ≡ Option.none
      → (k : ℕ) → e.interest (e.close r.epoll fd) k ≡ e.interest r.epoll k
  closed-again listen r fd valid w k =
      ap (λ g. g k) (e.close_open r.epoll fd valid) ∙ (elim (Bool-cases (fd == k)) [
        | inl p ↦
            let q = (==_iff fd k).0 p in
            update_self (e.interest r.epoll) fd Option.none q ∙ sym w ∙ ap (e.interest r.epoll) q
        | inr p ↦ update_ne (e.interest r.epoll) fd Option.none (==→ne fd k p)
      ])

  not_entered :
      (listen : ℕ) (r : Reactor S) (fd : ℕ)
      → fd ≢ no_fd
      → e.interest r.epoll fd ≡ Option.none
      → Matches listen r
      → Matches listen (record r { epoll = e.close r.epoll fd })
  not_entered listen r fd valid w m = record {
    each = λ k n v. Agrees-same refl (closed-again listen r fd valid w k) (m.each k n v);
    vacant = m.vacant;
  }

  -- A descriptor that `accept` may answer with: it is open, new, and not the listening one.
  pub record Fresh (listen : ℕ) (r : Reactor S) (fd : ℕ) : Type 0 where
    pub valid : fd ≢ no_fd
    pub other : fd ≢ listen
    pub unwatched : e.interest r.epoll fd ≡ Option.none

  accept_slot-Matches :
      (listen : ℕ) (r : Reactor S) (fd : ℕ) (s : Slot)
      → r.objects fd ≡ s
      → Fresh listen r fd
      → Matches listen r
      → Returned (Matches listen) (accept_slot e r fd s)
  unfolding add_event_obj
  accept_slot-Matches listen r fd absent h f m =
      rw h (add_free listen r (new_client fd) f.valid f.unwatched m)
  accept_slot-Matches listen r fd null h f m = rw h (not_entered listen r fd f.valid f.unwatched m)
  accept_slot-Matches listen r fd (held o) h f m =
      rw h (not_entered listen r fd f.valid f.unwatched m)

  pub accept-Matches :
      (listen : ℕ) (r : Reactor S) (a : Option ℕ)
      → ((fd : ℕ) → a ≡ some fd → Fresh listen r fd)
      → Matches listen r
      → Returned (Matches listen) (on_accept e r a)
  unfolding on_accept
  accept-Matches listen r Option.none f m = m
  accept-Matches listen r (some fd) f m =
      accept_slot-Matches listen r fd (r.objects fd) refl (f fd refl) m

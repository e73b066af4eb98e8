-- ===== src/KvStore/Reactor/Loop.antt =====
-- The loop of `ReactorServer::doRun` of kv_store over the events of one `epoll_wait` keeps `_eventMap`
-- and epoll in agreement.
use mathlib.Core.Path.{subst}
use learn_space.Base.{
  ℕ, ◌≡◌, ◌≢◌, ◌∙◌, refl, sym, Bool, true, false, Option, some, List, [], ◌∷◌, ok, faults, update,
  update_self, update_ne, ◌==◌, ==→ne, Bool-cases, inl, inr, ◌||◌, if◌then◌else◌, Returned,
  Returned-then, Returned-both, Returned-weaken,
}
use learn_space.Epoll.{no_fd, Epoll}
use learn_space.KvStore.Reactor.{EventObj, Slot, absent, null, held, Reactor}
use learn_space.KvStore.Reactor.Handlers.{
  Site, Ready, on_recv, on_send, entered, handle_slot, handle_event, handle_events,
}
use learn_space.KvStore.Reactor.Phases.{Apart, Apart-trans}
use learn_space.KvStore.Reactor.Steps.{Sound, Leaves, leaves-self, leaves-leaves}
use learn_space.KvStore.Reactor.Turns.{on_recv-Leaves, on_send-Leaves}
use learn_space.KvStore.Reactor.Matches.{
  Agrees, nothing, null_pointer, watched, closed, Matches, Agrees-same, Phase-Agrees, Agrees-Phase,
  change, Fresh, accept-Matches,
}

module _ {S : Type 0} (e : Epoll S) where
  -- A turn on the object that the map holds under the descriptor of the event.
  serve :
      (key : ℕ) (valid : key ≢ no_fd) (r : Reactor S) (ev : Ready) (o : EventObj)
      → ev.fd ≡ key
      → Sound e key valid (r, o)
      → Returned (λ r'. Agrees e key r' × Apart e key r r') (handle_slot e r ev (held o))
  unfolding handle_slot
  serve key valid r ev o i s =
      let P = Leaves e key valid r in
      Returned-then P (λ r'. Agrees e key r' × Apart e key r r') _ _ (input_turn ev.input)
        (λ x l.
          Returned-then P (λ r'. Agrees e key r' × Apart e key r r') _ _ (output_turn ev.output x l)
            (λ y l'. (Phase-Agrees e y l'.sound.phase, l'.apart)))
    where
      input_turn :
          (b : Bool)
          → Returned
              (Leaves e key valid r)
              (if b then on_recv e ev.fd ev.received (r, o) else ok (r, o))
      input_turn true =
          subst (λ k. Returned (Leaves e key valid r) (on_recv e k ev.received (r, o))) (sym i)
            (on_recv-Leaves e key valid ev.received r o s)
      input_turn false = leaves-self e key valid (r, o) s

      output_turn :
          (b : Bool) (x : Site e)
          → Leaves e key valid r x
          → Returned (Leaves e key valid r) (if b then on_send e ev.fd ev.sent x else ok x)
      output_turn true x l =
          subst (λ k. Returned (Leaves e key valid r) (on_send e k ev.sent x)) (sym i)
            (Returned-weaken (Leaves e key valid x.0) (Leaves e key valid r) _
              (λ y. leaves-leaves e key valid r x y l)
              (on_send-Leaves e key valid ev.sent x.0 x.1 l.sound))
      output_turn false x l = l

  -- The event's key entered in the map, which changes only a key that is missing.
  entered-Apart :
      (r : Reactor S) (key : ℕ) (s : Slot)
      → Apart e key r (record r { objects = update r.objects key s })
  entered-Apart r key s = record {
    objects_same = λ k n. update_ne r.objects key s (λ p. n (sym p));
    interest_same = λ k n. refl;
  }

  -- The null pointer that `operator[]` enters is not to be called.
  missing :
      (listen : ℕ) (r : Reactor S) (ev : Ready)
      → ev.fd ≢ no_fd
      → Matches e listen r
      → e.interest r.epoll ev.fd ≡ Option.none
      → Returned
          (Matches e listen)
          (handle_slot e (record r { objects = update r.objects ev.fd null }) ev null)
  unfolding handle_slot
  missing listen r ev valid m w = uncalled (ev.input || ev.output)
    where
      r0 : Reactor S
      r0 = record r { objects = update r.objects ev.fd null }

      uncalled : (b : Bool) → Returned (Matches e listen) (if b then faults else ok r0)
      uncalled true = tt
      uncalled false =
          change e ev.fd r r0 valid (entered-Apart r ev.fd null)
            (null_pointer (update_self r.objects ev.fd null refl) w) m

  -- Without an object, epoll does not watch the descriptor.
  idle :
      (k : ℕ) (r : Reactor S)
      → ((o : EventObj) → r.objects k ≢ held o)
      → Agrees e k r
      → e.interest r.epoll k ≡ Option.none
  idle k r free (nothing h w) = w
  idle k r free (null_pointer h w) = w
  idle k r free (watched o h i w) = absurd (free o h)
  idle k r free (closed o h i w) = w

  slot-Matches :
      (listen : ℕ) (r : Reactor S) (ev : Ready) (s : Slot)
      → r.objects ev.fd ≡ s
      → ev.fd ≢ listen
      → ev.fd ≢ no_fd
      → Matches e listen r
      → Returned
          (Matches e listen)
          (handle_slot e (record r { objects = update r.objects ev.fd (entered s) }) ev (entered s))
  slot-Matches listen r ev absent h other valid m =
      missing listen r ev valid m
        (idle ev.fd r (λ o q. absurd (cc (sym h ∙ q))) (m.each ev.fd other valid))
  slot-Matches listen r ev null h other valid m =
      missing listen r ev valid m
        (idle ev.fd r (λ o q. absurd (cc (sym h ∙ q))) (m.each ev.fd other valid))
  slot-Matches listen r ev (held o) h other valid m =
      let r0 = record r { objects = update r.objects ev.fd (held o) } in
      let here : r0.objects ev.fd ≡ held o = update_self r.objects ev.fd (held o) refl in
      let a = entered-Apart r ev.fd (held o) in
      let p =
        Agrees-Phase e r0 o here (Agrees-same e (here ∙ sym h) refl (m.each ev.fd other valid)) in
      Returned-weaken _ (Matches e listen) (handle_slot e r0 ev (held o))
        (λ r' c. change e ev.fd r r' valid (Apart-trans e a c.1) c.0 m)
        (serve ev.fd valid r0 ev o refl
          (record { phase = p; vacant = a.objects_same no_fd (λ q. valid (sym q)) ∙ m.vacant }))

  -- What epoll and `accept` answer: an open descriptor is reported, and a new one accepted.
  pub record Valid (listen : ℕ) (r : Reactor S) (ev : Ready) : Type 0 where
    pub reported : ev.fd ≢ no_fd
    pub accepts : (fd : ℕ) → ev.accepted ≡ some fd → Fresh e listen r fd

  event-Matches :
      (listen : ℕ) (r : Reactor S) (ev : Ready)
      → Valid listen r ev
      → Matches e listen r
      → Returned (Matches e listen) (handle_event e listen r ev)
  unfolding handle_event
  event-Matches listen r ev v m = elim (Bool-cases (ev.fd == listen)) [
    | inl own ↦ rw own (accept-Matches e listen r ev.accepted v.accepts m)
    | inr other ↦
        rw other
          (slot-Matches listen r ev (r.objects ev.fd) refl (==→ne ev.fd listen other) v.reported m)
  ]

  -- Each event answers validly in the state that it is handled in.
  abbrev pub AllValid : ℕ → Reactor S → List Ready → Type 0
  AllValid listen r [] = Unit
  AllValid listen r (ev ∷ events) =
      Valid listen r ev × Returned (λ r1. AllValid listen r1 events) (handle_event e listen r ev)

  -- If epoll watches every descriptor but the listening one for what its object in `_eventMap`
  -- asks for, then it does so after any events that `doRun` handles without undefined behaviour,
  -- if they are reported on open descriptors and `accept` answers with descriptors that are not
  -- watched.
  pub handle_events-Matches :
      (listen : ℕ) (r : Reactor S) (events : List Ready)
      → AllValid listen r events
      → Matches e listen r
      → Returned (Matches e listen) (handle_events e listen r events)
  unfolding handle_events
  handle_events-Matches listen r [] v m = m
  handle_events-Matches listen r (ev ∷ events) v m =
      Returned-both (Matches e listen) (Matches e listen) _ (handle_event e listen r ev) _
        (event-Matches listen r ev v.0 m) v.1
        (λ r1 m1 v1. handle_events-Matches listen r1 events v1 m1)

-- ===== src/KvStore/Reactor/Turns.antt =====
-- `onRecv` and `onSend` of a connection of kv_store leave it in one of its phases.
use learn_space.Base.{
  ℕ, ◌≢◌, refl, Bool, true, false, List, [], ok, ◌>>=◌, if◌then◌else◌, Returned, Returned->>=,
  Returned-then,
}
use learn_space.Epoll.{no_fd, Epoll}
use learn_space.KvStore.Reactor.{EventObj, Reactor}
use learn_space.KvStore.Reactor.Sockets.{Received, Sent, send_loop, recv_loop, drop_sent}
use learn_space.KvStore.Reactor.Handlers.{
  Site, save, happen_error, send_imp, close_imp, on_recv, on_send,
}
use learn_space.KvStore.Reactor.Steps.{
  Sound, Leaves, leaves-leaves, leaves-self, after-Leaves, save-Leaves, recv_imp-Leaves,
  happen_error-Leaves,
}
use learn_space.KvStore.Reactor.Closing.{close_imp-Leaves}
use learn_space.KvStore.Reactor.Retyping.{send_imp-Leaves}

module _ {S : Type 0} (e : Epoll S) (key : ℕ) (valid : key ≢ no_fd) where
  -- Closed or not, a site is left sound.
  shut :
      (r : Reactor S) (x : Site e) (b : Bool)
      → Leaves e key valid r x
      → Leaves e key valid r (if b then close_imp e key x else x)
  shut r x true l =
      leaves-leaves e key valid r x (close_imp e key x) l
        (close_imp-Leaves e key valid x.0 x.1 l.sound)
  shut r x false l = l

  pub on_recv-Leaves :
      (answers : List Received) (r : Reactor S) (o : EventObj)
      → Sound e key valid (r, o)
      → Returned (Leaves e key valid r) (on_recv e key answers (r, o))
  unfolding on_recv save
  on_recv-Leaves answers r o s =
      Returned->>= (Leaves e key valid r) (recv_loop o.recv_buffer answers) _ (λ end.
        let o1 = record o { recv_buffer = end.text } in
        let l1 = save-Leaves e key valid r o o1 refl refl s in
        Returned-then (Leaves e key valid (save e key r o1).0) (Leaves e key valid r) _ _
          (recv_imp-Leaves e key valid (save e key r o1).0 o1 l1.sound)
          (λ x l2. shut r x end.peer_closed (after-Leaves e key valid r _ x l1.apart l2)))

  failed :
      (r : Reactor S) (o : EventObj) (b : Bool)
      → Sound e key valid (r, o)
      → Leaves e key valid r (if b then happen_error e key (r, o) else (r, o))
  failed r o true s = happen_error-Leaves e key valid r o s
  failed r o false s = leaves-self e key valid (r, o) s

  -- What `onSend` does with the bytes that are left.
  sent-Leaves :
      (r : Reactor S) (x : Site e) (buffer : List ℕ) (b : Bool)
      → Leaves e key valid r x
      → Returned (Leaves e key valid r) (do
        y ← send_imp e key (save e key x.0 (record x.1 { send_buffer = buffer }))
        ok (if b then close_imp e key y else y))
  unfolding save
  sent-Leaves r x buffer b l =
      let o1 = record x.1 { send_buffer = buffer } in
      let r1 = (save e key x.0 o1).0 in
      let l1 = save-Leaves e key valid x.0 x.1 o1 refl refl l.sound in
      let l2 = leaves-leaves e key valid r x (r1, o1) l l1 in
      Returned-then (Leaves e key valid r1) (Leaves e key valid r) _ _
        (send_imp-Leaves e key valid r1 o1 l1.sound)
        (λ y l3. shut r y b (after-Leaves e key valid r r1 y l2.apart l3))

  pub on_send-Leaves :
      (answers : List Sent) (r : Reactor S) (o : EventObj)
      → Sound e key valid (r, o)
      → Returned (Leaves e key valid r) (on_send e key answers (r, o))
  unfolding on_send
  on_send-Leaves answers r o s =
      Returned->>= (Leaves e key valid r) (send_loop o.send_buffer 0 [] false answers) _ (λ end.
        Returned->>= (Leaves e key valid r) (drop_sent o.send_buffer end.offset) _ (λ buffer.
          let x = if end.error then happen_error e key (r, o) else (r, o) in
          sent-Leaves r x buffer end.peer_closed (failed r o end.error s)))

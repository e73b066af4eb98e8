-- ===== src/KvStore/Reactor/Handlers.antt =====
-- The handlers of a connection, `KVTcpClient` of kv_store/Network.cpp, and the part of the loop of
-- `ReactorServer::doRun` that handles one event. A handler has the object and its key in `_eventMap`.
use learn_space.Base.{
  ℕ, Bool, true, false, ◌||◌, Option, some, List, [], ◌∷◌, Outcome, ok, faults, ◌>>=◌,
  if◌then◌else◌, ◌==◌, update,
}
use learn_space.KvStore.Text.{remove_front}
use learn_space.KvStore.Protocol.{appended, analysis}
use learn_space.Epoll.{no_fd, Epoll}
use learn_space.KvStore.Reactor.{
  read, et, EventObj, Slot, absent, null, held, Reactor, store, update_event_obj, add_event_obj,
  remove_event_obj,
}
use learn_space.KvStore.Reactor.Sockets.{Received, Sent, send_loop, recv_loop, drop_sent}

-- An event that `epoll_wait` reports, with the answers of the calls that handling it makes:
-- `accepted` is that of `accept` on the listening socket.
pub record Ready : Type 0 where
  pub fd : ℕ
  pub input : Bool
  pub output : Bool
  pub accepted : Option ℕ
  pub received : List Received
  pub sent : List Sent

-- `KVTcpClient(fd, ReactorEventObj::EventType::Read)`
abbrev pub new_client : ℕ → EventObj
new_client fd = record {
  fd = fd;
  type = read;
  mode = et;
  recv_buffer = appended [];
  send_buffer = [];
}

abbrev pub is_empty : List ℕ → Bool
is_empty [] = true
is_empty (b ∷ bs) = false

-- `_eventMap[readyFd]`, which enters a null pointer under a key that is missing.
abbrev pub entered : Slot → Slot
entered absent = null
entered null = null
entered (held o) = held o

module _ {S : Type 0} (e : Epoll S) where
  -- The object, and the reactor that it stands in.
  abbrev pub Site : Type 0
  Site = Reactor S × EventObj

  unfoldable pub save : ℕ → Reactor S → EventObj → Site
  save key r o = (store e r key o, o)

  unfoldable pub happen_error : ℕ → Site → Site
  happen_error key (r, o) =
      if o.fd == no_fd
      then (r, o)
      else save key (record r { epoll = e.close r.epoll o.fd }) (record o { fd = no_fd })

  unfoldable pub recv_imp : ℕ → Site → Outcome Site
  recv_imp key (r, o) = do
    used ← analysis o.recv_buffer
    left ← remove_front o.recv_buffer used
    ok (save key r (record o { recv_buffer = left }))

  unfoldable pub send_imp : ℕ → Site → Outcome Site
  send_imp key (r, o) =
      let (r1, o1) = save key r (record o { type = read }) in
      if is_empty o.send_buffer
      then (do r2 ← update_event_obj e r1 o1.fd; ok (r2, o1))
      else ok (r, o)

  unfoldable pub close_imp : ℕ → Site → Site
  close_imp key (r, o) =
      let r1 = remove_event_obj e r o.fd in
      save key (record r1 { epoll = e.close r1.epoll o.fd }) (record o { fd = no_fd })

  unfoldable pub on_recv : ℕ → List Received → Site → Outcome Site
  on_recv key answers (r, o) = do
    end ← recv_loop o.recv_buffer answers
    x ← recv_imp key (save key r (record o { recv_buffer = end.text }))
    ok (if end.peer_closed then close_imp key x else x)

  unfoldable pub on_send : ℕ → List Sent → Site → Outcome Site
  on_send key answers (r, o) = do
    end ← send_loop o.send_buffer 0 [] false answers
    let (r1, o1) = if end.error then happen_error key (r, o) else (r, o)
    buffer ← drop_sent o.send_buffer end.offset
    x ← send_imp key (save key r1 (record o1 { send_buffer = buffer }))
    ok (if end.peer_closed then close_imp key x else x)

  -- `onAccept` of the listening socket, with its `acceptImp`. A client that `addEventObj` does not
  -- enter is destroyed on return, and its destructor closes the descriptor.
  abbrev pub accept_slot : Reactor S → ℕ → Slot → Outcome (Reactor S)
  accept_slot r fd absent = add_event_obj e r (new_client fd)
  accept_slot r fd null = do
    r1 ← add_event_obj e r (new_client fd)
    ok (record r1 { epoll = e.close r1.epoll fd })
  accept_slot r fd (held o) = do
    r1 ← add_event_obj e r (new_client fd)
    ok (record r1 { epoll = e.close r1.epoll fd })

  unfoldable pub on_accept : Reactor S → Option ℕ → Outcome (Reactor S)
  on_accept r Option.none = ok r
  on_accept r (some fd) = accept_slot r fd (r.objects fd)

  unfoldable pub handle_slot : Reactor S → Ready → Slot → Outcome (Reactor S)
  handle_slot r ev (held o) = do
    x ← (if ev.input then on_recv ev.fd ev.received (r, o) else ok (r, o))
    y ← (if ev.output then on_send ev.fd ev.sent x else ok x)
    ok y.0
  handle_slot r ev null = if ev.input || ev.output then faults else ok r
  handle_slot r ev absent = if ev.input || ev.output then faults else ok r

  unfoldable pub handle_event : ℕ → Reactor S → Ready → Outcome (Reactor S)
  handle_event listen r ev =
      let slot = entered (r.objects ev.fd) in
      if ev.fd == listen
      then on_accept r ev.accepted
      else handle_slot (record r { objects = update r.objects ev.fd slot }) ev slot

  -- The events that one `epoll_wait` reports.
  unfoldable pub handle_events : ℕ → Reactor S → List Ready → Outcome (Reactor S)
  handle_events listen r [] = ok r
  handle_events listen r (ev ∷ events) = do
    r1 ← handle_event listen r ev
    handle_events listen r1 events

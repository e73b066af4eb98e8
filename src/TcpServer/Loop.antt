-- ===== src/TcpServer/Loop.antt =====
-- What the events of `EchoTcpServer::start` of TCPServer/TcpServer.cpp leave.
use learn_space.Base.{
  ℕ, ◌≡◌, ◌≢◌, ◌∙◌, refl, sym, ap, Bool, true, false, Option, none, some, List, [], ◌∷◌, ok,
  if◌then◌else◌, ◌==◌, update_self, update_ne, if_true, eq→==, Returned, Returned->>=,
  Returned-then, Returned-both,
}
use learn_space.Epoll.{no_fd, Epoll}
use learn_space.TcpServer.Message.{Message, prepend}
use learn_space.TcpServer.Socket.{TcpSocket, Sent, close, send, accept}
use learn_space.TcpServer.Echo.{
  EchoTcpServer, Ready, edge_input, header, dropped, entered, kept, forgotten, is_empty, answer,
  read_client, handle_client, handle_event, handle_events,
}
use learn_space.TcpServer.Serving.{Client, Leaves, read_all-Leaves, send-Leaves}
use learn_space.TcpServer.Watching.{
  Agrees, unused, connected, closed, Serves, change, kept-Serves, forgotten-Serves, Agrees-Client,
}

module _ {S : Type 0} (e : Epoll S) where
  leaves-leaves :
      (key : ℕ) (valid : key ≢ no_fd) (st : S) (x y : S × TcpSocket)
      → Leaves e key valid st x
      → Leaves e key valid x.0 y
      → Leaves e key valid st y
  leaves-leaves key valid st x y l l' = (l'.0, λ k n. l'.1 k n ∙ l.1 k n)

  answer-Serves :
      (key : ℕ) (valid : key ≢ no_fd) (r : EchoTcpServer S) (x : S × TcpSocket) (msg : Message)
      (sent : Sent)
      → Leaves e key valid r.epoll x
      → Serves e r
      → Returned (Serves e) (answer e r key x.0 x.1 msg sent)
  unfolding answer
  answer-Serves key valid r x msg sent l m =
      let y = (send e x.0 x.1 sent).0 in
      Returned->>= (Serves e) (prepend msg header) _ (λ reply.
        kept-Serves e key valid r y
          (leaves-leaves key valid r.epoll x y l (send-Leaves e key valid x.0 x.1 sent l.0)) m)

  read_client-Serves :
      (r : EchoTcpServer S) (ev : Ready) (s : TcpSocket) (valid : ev.fd ≢ no_fd)
      → Client e ev.fd valid (r.epoll, s)
      → Serves e r
      → Returned (Serves e) (read_client e r ev s)
  unfolding read_client
  read_client-Serves r ev s valid c m =
      Returned-then (λ x. Leaves e ev.fd valid r.epoll x.0) (Serves e) _ _
        (read_all-Leaves e ev.fd valid r.epoll s ev.received c)
        (λ x l. turn x.0 x.1 x.0.1.connected (is_empty e x.1) l)
    where
      turn :
          (x : S × TcpSocket) (msg : Message) (stays silent : Bool)
          → Leaves e ev.fd valid r.epoll x
          → Returned (Serves e) (
              if stays
              then (if silent
                  then ok (kept e r ev.fd x.0 x.1)
                  else answer e r ev.fd x.0 x.1 msg ev.sent)
              else ok (forgotten e r ev.fd x.0))
      turn x msg true true l = kept-Serves e ev.fd valid r x l m
      turn x msg true false l = answer-Serves ev.fd valid r x msg ev.sent l m
      turn x msg false silent l = forgotten-Serves e ev.fd valid r x l m

  client-Serves :
      (r : EchoTcpServer S) (ev : Ready) (c : Option TcpSocket)
      → r.cl_sockets ev.fd ≡ c
      → r.tcp_servers ev.fd ≡ false
      → ev.fd ≢ no_fd
      → Serves e r
      → Returned (Serves e) (handle_client e r ev c)
  client-Serves r ev none h other valid m = m
  client-Serves r ev (some s) h other valid m =
      read_client-Serves r ev s valid (Agrees-Client e ev.fd valid r s h (m.each ev.fd other valid))
        m

  -- A descriptor that `accept` may answer with.
  pub record Fresh (r : EchoTcpServer S) (fd : ℕ) : Type 0 where
    pub valid : fd ≢ no_fd
    pub other : r.tcp_servers fd ≡ false
    pub unwatched : e.interest r.epoll fd ≡ none

  -- The client that the new one takes the place of has been closed.
  dropped_idle :
      (r : EchoTcpServer S) (fd : ℕ) (st : S)
      → Agrees e fd r
      → e.interest r.epoll fd ≡ none
      → dropped e st (r.cl_sockets fd) ≡ st
  unfolding close
  dropped_idle r fd st (unused h w) u = ap (dropped e st) h
  dropped_idle r fd st (connected s h c i w) u = absurd (cc (sym w ∙ u))
  dropped_idle r fd st (closed s h c i w) u =
      ap (dropped e st) h ∙ if_true (s.fd == no_fd) st _ (eq→== s.fd no_fd i)

  accept-Serves :
      (r : EchoTcpServer S) (a : Option ℕ)
      → ((fd : ℕ) → a ≡ some fd → Fresh r fd)
      → Serves e r
      → Serves e (entered e r (accept a))
  unfolding accept
  accept-Serves r none f m = m
  accept-Serves r (some fd) f m =
      let g = f fd refl in
      let s : TcpSocket = record { fd = fd; connected = true; errors = [] } in
      let a = e.add_new r.epoll fd edge_input g.valid g.unwatched in
      let idle =
        dropped_idle r fd (e.ctl_add r.epoll fd edge_input).0 (m.each fd g.other g.valid)
          g.unwatched in
      let w = ap e.interest idle ∙ a.1 in
      change e fd r (entered e r (some s)) refl
        (λ k n. update_ne r.cl_sockets fd (some s) (λ p. n (sym p)))
        (λ k n. ap (λ h. h k) w ∙ update_ne (e.interest r.epoll) fd _ (λ p. n (sym p)))
        (connected s (update_self r.cl_sockets fd (some s) refl) refl refl
          (ap (λ h. h fd) w ∙ update_self (e.interest r.epoll) fd _ refl))
        m

  pub record Valid (r : EchoTcpServer S) (ev : Ready) : Type 0 where
    pub reported : ev.fd ≢ no_fd
    pub accepts : (fd : ℕ) → ev.accepted ≡ some fd → Fresh r fd

  -- Each event answers validly in the state that it is handled in.
  abbrev pub AllValid : EchoTcpServer S → List Ready → Type 0
  AllValid r [] = Unit
  AllValid r (ev ∷ events) = Valid r ev × Returned (λ r1. AllValid r1 events) (handle_event e r ev)

  event-Serves :
      (r : EchoTcpServer S) (ev : Ready)
      → Valid r ev
      → Serves e r
      → Returned (Serves e) (handle_event e r ev)
  unfolding handle_event
  event-Serves r ev v m = input_turn ev.input (r.tcp_servers ev.fd) refl
    where
      input_turn :
          (input own : Bool)
          → r.tcp_servers ev.fd ≡ own
          → Returned (Serves e) (
              if input
              then (if own
                  then ok (entered e r (accept ev.accepted))
                  else handle_client e r ev (r.cl_sockets ev.fd))
              else ok r)
      input_turn true true h = accept-Serves r ev.accepted v.accepts m
      input_turn true false h = client-Serves r ev (r.cl_sockets ev.fd) refl h v.reported m
      input_turn false own h = m

  -- If every client of the map is connected and watched for input, or closed and not watched, and
  -- nothing else is watched but the listening sockets, then this is so after any events that the loop
  -- of `start` handles without undefined behaviour, if they are on open descriptors and `accept`
  -- answers with descriptors that are not in use.
  pub echo-Serves :
      (r : EchoTcpServer S) (events : List Ready)
      → AllValid r events
      → Serves e r
      → Returned (Serves e) (handle_events e r events)
  unfolding handle_events
  echo-Serves r [] v m = m
  echo-Serves r (ev ∷ events) v m =
      Returned-both (Serves e) (Serves e) _ (handle_event e r ev) _ (event-Serves r ev v.0 m) v.1
        (λ r1 m1 v1. echo-Serves r1 events v1 m1)

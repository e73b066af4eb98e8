-- ===== src/TcpServer/Echo.antt =====
-- `EchoTcpServer` of TCPServer/TcpServer.cpp: what its loop does with the events of one `epoll_wait`.
use learn_space.Base.{
  ℕ, Bool, true, false, Option, none, some, List, [], ◌∷◌, Outcome, ok, ◌>>=◌, if◌then◌else◌, ◌==◌,
  update,
}
use learn_space.Epoll.{Flags, Epoll}
use learn_space.TcpServer.Message.{Message, prepend}
use learn_space.TcpServer.Socket.{TcpSocket, Received, Sent, close, read_all, send, accept}

-- `_tcpServers` is the set of its keys.
pub record EchoTcpServer (S : Type 0) : Type 0 where
  pub tcp_servers : ℕ → Bool
  pub cl_sockets : ℕ → Option TcpSocket
  pub epoll : S

-- An event, with the answers of the calls that handling it makes.
pub record Ready : Type 0 where
  pub fd : ℕ
  pub input : Bool
  pub accepted : Option ℕ
  pub received : List Received
  pub sent : Sent

-- `EPOLLIN | EPOLLET`
abbrev pub edge_input : Flags
edge_input = record { input = true; output = false; edge = true }

-- "Recv To:"
abbrev pub header : List ℕ
header = b'R' ∷ b'e' ∷ b'c' ∷ b'v' ∷ b' ' ∷ b'T' ∷ b'o' ∷ b':' ∷ []

module _ {S : Type 0} (e : Epoll S) where
  -- The destructor of a socket that the map lets go.
  abbrev pub dropped : S → Option TcpSocket → S
  dropped st none = st
  dropped st (some s) = (close e st s).0

  abbrev pub entered : EchoTcpServer S → Option TcpSocket → EchoTcpServer S
  entered r none = r
  entered r (some s) =
      let st = (e.ctl_add r.epoll s.fd edge_input).0 in
      record r {
        cl_sockets = update r.cl_sockets s.fd (some s);
        epoll = dropped st (r.cl_sockets s.fd);
      }

  -- The client under a key, written.
  abbrev pub kept : EchoTcpServer S → ℕ → S → TcpSocket → EchoTcpServer S
  kept r key st s = record r { cl_sockets = update r.cl_sockets key (some s); epoll = st }

  abbrev pub forgotten : EchoTcpServer S → ℕ → S → EchoTcpServer S
  forgotten r key st = record r {
    cl_sockets = update r.cl_sockets key none;
    epoll = e.ctl_del st key;
  }

  abbrev pub is_empty : Message → Bool
  is_empty msg = msg.size == 0

  unfoldable pub answer :
      EchoTcpServer S → ℕ → S → TcpSocket → Message → Sent → Outcome (EchoTcpServer S)
  answer r key st s msg sent = do
    reply ← prepend msg header
    let (st1, s1) = (send e st s sent).0
    ok (kept r key st1 s1)

  unfoldable pub read_client : EchoTcpServer S → Ready → TcpSocket → Outcome (EchoTcpServer S)
  read_client r ev s = do
    x ← read_all e r.epoll s ev.received
    let (st, s1) = x.0
    let replied = answer r ev.fd st s1 x.1 ev.sent
    if s1.connected
        then (if is_empty x.1 then ok (kept r ev.fd st s1) else replied)
        else ok (forgotten r ev.fd st)

  abbrev pub handle_client : EchoTcpServer S → Ready → Option TcpSocket → Outcome (EchoTcpServer S)
  handle_client r ev none = ok r
  handle_client r ev (some s) = read_client r ev s

  unfoldable pub handle_event : EchoTcpServer S → Ready → Outcome (EchoTcpServer S)
  handle_event r ev =
      if ev.input
      then (if r.tcp_servers ev.fd
          then ok (entered r (accept ev.accepted))
          else handle_client r ev (r.cl_sockets ev.fd))
      else ok r

  unfoldable pub handle_events : EchoTcpServer S → List Ready → Outcome (EchoTcpServer S)
  handle_events r [] = ok r
  handle_events r (ev ∷ events) = do r1 ← handle_event r ev; handle_events r1 events

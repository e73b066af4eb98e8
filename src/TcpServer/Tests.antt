-- ===== src/TcpServer/Tests.antt =====
-- The echo server of TCPServer/ on small inputs.
use learn_space.Base.{
  ℕ, ◌≤◌, ◌<◌, ◌≡◌, refl, true, false, none, some, List, [], ◌∷◌, ◌++◌, map, length, replicate, ok,
  faults, ◌>>=◌, ◌==◌, update, ne→==, ==→ne, sym, Returned, Returned-all, arith,
}
use learn_space.Epoll.Small.{Watches, epoll}
use learn_space.TcpServer.Message.{Message, insert_element, append, prepend}
use learn_space.TcpServer.Socket.{
  TcpSocket, bytes, end, would_block, took, not_now, close, read_loop, read_all, send, accept,
}
use learn_space.TcpServer.Echo.{
  EchoTcpServer, Ready, edge_input, header, answer, read_client, handle_event, handle_events,
}
use learn_space.TcpServer.Replies.{Holds, prepend-Holds}
use learn_space.TcpServer.Reading.{arrives, peer_closed, joined, left, read_all-Holds}
use learn_space.TcpServer.Watching.{unused, Serves}
use learn_space.TcpServer.Loop.{Valid, AllValid, echo-Serves}

-- "Hi", in a buffer of 16 bytes.
abbrev hi : List ℕ
hi = b'H' ∷ b'i' ∷ []

abbrev message : Message
message = record { buffer = hi ++ replicate 14 0; size = 2 }

prepend-Holds_example :
    (length hi ≤ length header
      → (m1 : Message) × (prepend message header ≡ ok m1) × Holds m1 (header ++ hi))
    × (length header < length hi → prepend message header ≡ faults)
prepend-Holds_example =
    prepend-Holds message hi header (record { rest = replicate 14 0; whole = refl; sized = refl })
      (omega arith)

abbrev client : TcpSocket
client = record { fd = 5; connected = true; errors = [] }

abbrev two_chunks : List (ℕ × List ℕ)
two_chunks = (b'H', b'i' ∷ []) ∷ (b'!', []) ∷ []

abbrev none_watched : Watches
none_watched = λ fd. none

read_all-Holds_example :
    (m : Message) × (read_all epoll none_watched client (map arrives two_chunks ++ end ∷ [])
      ≡ ok (left epoll none_watched client peer_closed, m))
    × Holds m (joined two_chunks)
read_all-Holds_example = read_all-Holds epoll none_watched client two_chunks peer_closed [] refl

-- A server that listens on 3, with no client.
abbrev start : EchoTcpServer Watches
start = record {
  tcp_servers = λ fd. fd == 3;
  cl_sockets = λ fd. none;
  epoll = update none_watched 3 (some (record edge_input { edge = false }));
}

start-Serves : Serves epoll start
start-Serves = record {
  each = λ k n v. unused refl (rw (ne→== 3 k (λ h. ==→ne k 3 n (sym h))) refl);
}

abbrev accepting : Ready
accepting = record { fd = 3; input = true; accepted = some 5; received = []; sent = not_now }

-- The client on 5 sends "Hi", and takes the reply.
abbrev receiving : Ready
receiving = record {
  fd = 5;
  input = true;
  accepted = none;
  received = bytes b'H' (b'i' ∷ []) ∷ would_block ∷ [];
  sent = took 10;
}

accepting-Valid : Valid epoll start accepting
accepting-Valid = record {
  reported = λ p. omega arith;
  accepts = λ fd p.
      let q : 5 ≡ fd = cc p in
      record {
        valid = λ h. omega arith;
        other = ne→== fd 3 (λ h. omega (arith, q, h));
        unwatched = rw (ne→== 3 fd (λ h. omega (arith, q, h))) refl;
      };
}

receiving-Valid : (r : EchoTcpServer Watches) → Valid epoll r receiving
receiving-Valid r = record { reported = λ p. omega arith; accepts = λ fd p. absurd (cc p) }

events-AllValid : AllValid epoll start (accepting ∷ receiving ∷ [])
events-AllValid = (
  accepting-Valid,
  Returned-all (λ r1. AllValid epoll r1 (receiving ∷ [])) (handle_event epoll start accepting)
      (λ r1. (
        receiving-Valid r1,
        Returned-all (λ r2. Unit) (handle_event epoll r1 receiving) (λ r2. tt),
      )),
)

echo-Serves_example :
    Returned (Serves epoll) (handle_events epoll start (accepting ∷ receiving ∷ []))
echo-Serves_example =
    echo-Serves epoll start (accepting ∷ receiving ∷ []) events-AllValid start-Serves

-- The events, run: the client is still there.
events_run :
    (handle_events epoll start (accepting ∷ receiving ∷ []) >>= λ r. ok (r.cl_sockets 5))
    ≡ ok (some client)
unfolding handle_events handle_event accept read_client read_all read_loop append insert_element
    answer prepend send close
events_run = refl

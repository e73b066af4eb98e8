-- ===== src/TcpServer/Socket.antt =====
-- The sockets of TCPServer/TcpServer.cpp: `TcpVirtualSocket`, `TcpSocket` and `accept` of `TcpServer`.
-- What the calls of the operating system answer is given with each operation.
use learn_space.Base.{
  ℕ, zero, suc, ◌-◌, ◌^◌, Bool, true, false, Option, none, some, List, [], ◌∷◌, Outcome, ok,
  diverges, ◌>>=◌, if◌then◌else◌, ◌==◌,
}
use learn_space.Epoll.{no_fd, Epoll}
use learn_space.TcpServer.Message.{Message, empty, append}

-- `connected` is `_isConnect`; of an error its code is kept.
pub record TcpSocket : Type 0 where
  pub fd : ℕ
  pub connected : Bool
  pub errors : List ℕ

-- What `recv` and `send` answer, of bytes the first and the others, of errors `errno`.
pub data Received : Type 0 where
  bytes : ℕ → List ℕ → Received
  end : Received
  would_block : Received
  failed : ℕ → Received

pub data Sent : Type 0 where
  took : ℕ → Sent
  closed_by_peer : Sent
  not_now : Sent
  refused : Sent

abbrev pub e_in_progress : ℕ
e_in_progress = 115

-- `size_t` -1
abbrev pub no_size : ℕ
no_size = 2 ^ 64 - 1

unfoldable pub get_last_error : TcpSocket → ℕ × TcpSocket
get_last_error s = popped s.errors
  where
    popped : List ℕ → ℕ × TcpSocket
    popped [] = (0, s)
    popped (code ∷ errors) = (code, record s { errors = errors })

module _ {S : Type 0} (e : Epoll S) where
  unfoldable pub close : S → TcpSocket → S × TcpSocket
  close st s = (if s.fd == no_fd then st else e.close st s.fd, record s { fd = no_fd; errors = [] })

  -- `_isConnect = false; close();`
  abbrev pub disconnect : S → TcpSocket → S × TcpSocket
  disconnect st s = close st (record s { connected = false })

  -- `connect()`, with the descriptor that `createSokcet` makes and what `connect` answers.
  abbrev pub connected_to : S → TcpSocket → Option ℕ → S × (TcpSocket × Bool)
  connected_to st s none = (st, (record s { connected = true }, true))
  connected_to st s (some code) =
      if code == e_in_progress
      then (st, (s, false))
      else (st, (record s { errors = code ∷ s.errors }, false))

  unfoldable pub connect : S → TcpSocket → ℕ → Option ℕ → S × (TcpSocket × Bool)
  unfolding close
  connect st s made answer =
      let (st1, s1) = close st s in
      if s.connected
      then connected_to st1 (record s1 { fd = made; connected = false }) answer
      else connected_to st s answer

  -- The loop of `readAll`, of a socket that is connected.
  unfoldable pub read_loop :
      S → TcpSocket → Message → List Received → Outcome ((S × TcpSocket) × Message)
  unfolding close
  read_loop st s msg [] = diverges
  read_loop st s msg (bytes b bs ∷ answers) = do
    msg1 ← append msg (b ∷ bs)
    read_loop st s msg1 answers
  read_loop st s msg (end ∷ answers) = ok (disconnect st s, msg)
  read_loop st s msg (would_block ∷ answers) = ok ((st, s), msg)
  read_loop st s msg (failed code ∷ answers) =
      ok (disconnect st (record s { errors = code ∷ s.errors }), msg)

  unfoldable pub read_all : S → TcpSocket → List Received → Outcome ((S × TcpSocket) × Message)
  read_all st s answers = if s.connected then read_loop st s empty answers else ok ((st, s), empty)

  abbrev pub sent_to : S → TcpSocket → Sent → (S × TcpSocket) × ℕ
  sent_to st s (took zero) = (disconnect st s, 0)
  sent_to st s (took (suc n)) = ((st, s), suc n)
  sent_to st s closed_by_peer = (disconnect st s, 0)
  sent_to st s not_now = ((st, s), no_size)
  sent_to st s refused = (disconnect st s, no_size)

  unfoldable pub send : S → TcpSocket → Sent → (S × TcpSocket) × ℕ
  send st s answer = if s.connected then sent_to st s answer else ((st, s), no_size)

-- `accept` of a `TcpServer`, with the descriptor that `::accept` makes, if any.
unfoldable pub accept : Option ℕ → Option TcpSocket
accept none = none
accept (some fd) = some (record { fd = fd; connected = true; errors = [] })

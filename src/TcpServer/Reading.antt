-- ===== src/TcpServer/Reading.antt =====
-- `readAll` of TCPServer/TcpServer.cpp: what it reads, and how it leaves the socket.
use mathlib.Core.Path.{subst}
use learn_space.Base.{
  ℕ, ◌≡◌, ◌∙◌, refl, sym, true, false, List, [], ◌∷◌, ◌++◌, map, append-nil, append_assoc,
  replicate, ok, if◌then◌else◌, ◌==◌, if_true,
}
use learn_space.Epoll.{no_fd, Epoll}
use learn_space.TcpServer.Message.{Message, empty}
use learn_space.TcpServer.Socket.{
  TcpSocket, Received, bytes, end, would_block, failed, close, read_loop, read_all,
}
use learn_space.TcpServer.Replies.{Holds, append-Holds}

-- The answer to a `recv` that a chunk arrives at, and the bytes of the chunks.
abbrev pub arrives : ℕ × List ℕ → Received
arrives (b, bs) = bytes b bs

abbrev pub joined : List (ℕ × List ℕ) → List ℕ
joined [] = []
joined ((b, bs) ∷ chunks) = (b ∷ bs) ++ joined chunks

-- How the reading ends: nothing more is there, or the peer has closed, or an error.
pub data Stop : Type 0 where
  nothing_more : Stop
  peer_closed : Stop
  error : ℕ → Stop

abbrev pub answer_of : Stop → Received
answer_of nothing_more = would_block
answer_of peer_closed = end
answer_of (error code) = failed code

empty-Holds : Holds empty []
empty-Holds = record { rest = replicate 1024 0; whole = refl; sized = refl }

module _ {S : Type 0} (e : Epoll S) where
  -- The socket after the reading; an error is pushed, and `close` drops it again.
  abbrev pub left : S → TcpSocket → Stop → S × TcpSocket
  left st s nothing_more = (st, s)
  left st s peer_closed = (
    if s.fd == no_fd then st else e.close st s.fd,
    record { fd = no_fd; connected = false; errors = [] },
  )
  left st s (error code) = (
    if s.fd == no_fd then st else e.close st s.fd,
    record { fd = no_fd; connected = false; errors = [] },
  )

  read_loop-reads :
      (st : S) (s : TcpSocket) (m : Message) (xs : List ℕ) (chunks : List (ℕ × List ℕ))
      (stop : Stop) (rest : List Received)
      → Holds m xs
      → (m1 : Message) × (read_loop e st s m (map arrives chunks ++ answer_of stop ∷ rest)
          ≡ ok (left st s stop, m1))
        × Holds m1 (xs ++ joined chunks)
  unfolding read_loop close
  read_loop-reads st s m xs [] nothing_more rest h =
      (m, refl, subst (Holds m) (sym (append-nil xs)) h)
  read_loop-reads st s m xs [] peer_closed rest h =
      (m, refl, subst (Holds m) (sym (append-nil xs)) h)
  read_loop-reads st s m xs [] (error code) rest h =
      (m, refl, subst (Holds m) (sym (append-nil xs)) h)
  read_loop-reads st s m xs ((b, bs) ∷ chunks) stop rest h =
      let (m1, appended, h1) = append-Holds m xs (b ∷ bs) h in
      let (m2, runs, h2) = read_loop-reads st s m1 (xs ++ (b ∷ bs)) chunks stop rest h1 in
      (m2, rw appended runs, subst (Holds m2) (append_assoc xs (b ∷ bs) (joined chunks)) h2)

  -- `readAll` of a connected socket returns the chunks that arrive, each of a byte at least, in
  -- order, however many; the socket is as it was when nothing more is there, and is closed without
  -- an error to report when the peer has closed or `recv` has failed.
  pub read_all-Holds :
      (st : S) (s : TcpSocket) (chunks : List (ℕ × List ℕ)) (stop : Stop) (rest : List Received)
      → s.connected ≡ true
      → (m : Message) × (read_all e st s (map arrives chunks ++ answer_of stop ∷ rest)
          ≡ ok (left st s stop, m))
        × Holds m (joined chunks)
  unfolding read_all
  read_all-Holds st s chunks stop rest c =
      let (m, runs, h) = read_loop-reads st s empty [] chunks stop rest empty-Holds in
      (m, if_true s.connected _ _ c ∙ runs, h)

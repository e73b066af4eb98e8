-- ===== src/TcpServer/Serving.antt =====
-- A client of the echo server of TCPServer/ is connected and watched, or closed and not watched; reading
-- from it and sending to it keep this, and touch nothing else that epoll holds.
use mathlib.Core.Path.{subst}
use learn_space.Base.{
  ℕ, zero, suc, ◌≡◌, ◌≢◌, ◌∙◌, refl, sym, ap, true, false, none, some, List, [], ◌∷◌, ◌==◌, if_true,
  if_false, update_self, update_ne, ne→==, Returned, Returned->>=,
}
use learn_space.Epoll.{no_fd, Epoll}
use learn_space.TcpServer.Message.{Message, empty, append}
use learn_space.TcpServer.Socket.{
  TcpSocket, Received, bytes, end, would_block, failed, Sent, took, closed_by_peer, not_now,
  refused, close, disconnect, read_loop, read_all, sent_to, send,
}
use learn_space.TcpServer.Echo.{edge_input}

module _ {S : Type 0} (e : Epoll S) (key : ℕ) (valid : key ≢ no_fd) where
  pub data Client (x : S × TcpSocket) : Type 0 where
    up : x.1.connected ≡ true → x.1.fd ≡ key → e.interest x.0 key ≡ some edge_input → Client x
    down : x.1.connected ≡ false → x.1.fd ≡ no_fd → e.interest x.0 key ≡ none → Client x

  -- What is watched is as it was, but for the key.
  abbrev pub Elsewhere : S → S → Type 0
  Elsewhere st st' = (k : ℕ) → k ≢ key → e.interest st' k ≡ e.interest st k

  abbrev pub Leaves : S → S × TcpSocket → Type 0
  Leaves st x = Client x × Elsewhere st x.0

  stays : (x : S × TcpSocket) → Client x → Leaves x.0 x
  stays x c = (c, λ k n. refl)

  drops : (st : S) (s : TcpSocket) → s.fd ≡ key → Leaves st (disconnect e st s)
  unfolding close
  drops st s i =
      let n = λ (p : s.fd ≡ no_fd). valid (sym i ∙ p) in
      let c = if_false (s.fd == no_fd) st (e.close st s.fd) (ne→== s.fd no_fd n) in
      let w = ap e.interest c ∙ e.close_open st s.fd n in
      (
        down refl refl (ap (λ g. g key) w ∙ update_self (e.interest st) s.fd none i),
        λ k m. ap (λ g. g k) w ∙ update_ne (e.interest st) s.fd none (λ p. m (sym p ∙ i)),
      )

  read_loop-Leaves :
      (st : S) (s : TcpSocket) (m : Message) (answers : List Received)
      → s.fd ≡ key
      → Client (st, s)
      → Returned (λ x. Leaves st x.0) (read_loop e st s m answers)
  unfolding read_loop
  read_loop-Leaves st s m [] i c = tt
  read_loop-Leaves st s m (bytes b bs ∷ answers) i c =
      Returned->>= (λ x. Leaves st x.0) (append m (b ∷ bs)) _
        (λ m1. read_loop-Leaves st s m1 answers i c)
  read_loop-Leaves st s m (end ∷ answers) i c = drops st s i
  read_loop-Leaves st s m (would_block ∷ answers) i c = stays (st, s) c
  read_loop-Leaves st s m (failed code ∷ answers) i c =
      drops st (record s { errors = code ∷ s.errors }) i

  pub read_all-Leaves :
      (st : S) (s : TcpSocket) (answers : List Received)
      → Client (st, s)
      → Returned (λ x. Leaves st x.0) (read_all e st s answers)
  unfolding read_all
  read_all-Leaves st s answers (up c i w) =
      subst (Returned (λ x. Leaves st x.0)) (sym (if_true s.connected _ _ c))
        (read_loop-Leaves st s empty answers i (up c i w))
  read_all-Leaves st s answers (down c i w) =
      subst (Returned (λ x. Leaves st x.0)) (sym (if_false s.connected _ _ c))
        (stays (st, s) (down c i w))

  sent_to-Leaves :
      (st : S) (s : TcpSocket) (answer : Sent)
      → s.fd ≡ key
      → Client (st, s)
      → Leaves st (sent_to e st s answer).0
  sent_to-Leaves st s (took zero) i c = drops st s i
  sent_to-Leaves st s (took (suc n)) i c = stays (st, s) c
  sent_to-Leaves st s closed_by_peer i c = drops st s i
  sent_to-Leaves st s not_now i c = stays (st, s) c
  sent_to-Leaves st s refused i c = drops st s i

  pub send-Leaves :
      (st : S) (s : TcpSocket) (answer : Sent) → Client (st, s) → Leaves st (send e st s answer).0
  unfolding send
  send-Leaves st s answer (up c i w) =
      subst (λ (y : (S × TcpSocket) × ℕ). Leaves st y.0) (sym (if_true s.connected _ _ c))
        (sent_to-Leaves st s answer i (up c i w))
  send-Leaves st s answer (down c i w) =
      subst (λ (y : (S × TcpSocket) × ℕ). Leaves st y.0) (sym (if_false s.connected _ _ c))
        (stays (st, s) (down c i w))

-- ===== src/TcpServer/Watching.antt =====
-- The loop of `EchoTcpServer::start` of TCPServer/ keeps its map of clients and epoll in agreement.
use mathlib.Core.Path.{subst}
use learn_space.Base.{
  ℕ, ◌≡◌, ◌≢◌, ◌∙◌, refl, sym, ap, true, false, none, some, ◌==◌, ==→ne, ==_iff, Bool-cases, inl,
  inr, update_self, update_ne,
}
use learn_space.Epoll.{no_fd, Epoll}
use learn_space.TcpServer.Socket.{TcpSocket}
use learn_space.TcpServer.Echo.{EchoTcpServer, edge_input, kept, forgotten}
use learn_space.TcpServer.Serving.{Client, up, down, Leaves}

module _ {S : Type 0} (e : Epoll S) where
  pub data Agrees (k : ℕ) (r : EchoTcpServer S) : Type 0 where
    unused : r.cl_sockets k ≡ none → e.interest r.epoll k ≡ none → Agrees k r
    connected :
        (s : TcpSocket)
        → r.cl_sockets k ≡ some s
        → s.connected ≡ true
        → s.fd ≡ k
        → e.interest r.epoll k ≡ some edge_input
        → Agrees k r
    closed :
        (s : TcpSocket)
        → r.cl_sockets k ≡ some s
        → s.connected ≡ false
        → s.fd ≡ no_fd
        → e.interest r.epoll k ≡ none
        → Agrees k r

  -- Every descriptor but those of the listening sockets.
  pub record Serves (r : EchoTcpServer S) : Type 0 where
    pub each : (k : ℕ) → r.tcp_servers k ≡ false → k ≢ no_fd → Agrees k r

  Agrees-same :
      {k : ℕ} {r r' : EchoTcpServer S}
      → r'.cl_sockets k ≡ r.cl_sockets k
      → e.interest r'.epoll k ≡ e.interest r.epoll k
      → Agrees k r
      → Agrees k r'
  Agrees-same so si (unused h w) = unused (so ∙ h) (si ∙ w)
  Agrees-same so si (connected s h c i w) = connected s (so ∙ h) c i (si ∙ w)
  Agrees-same so si (closed s h c i w) = closed s (so ∙ h) c i (si ∙ w)

  pub change :
      (key : ℕ) (r r' : EchoTcpServer S)
      → r'.tcp_servers ≡ r.tcp_servers
      → ((k : ℕ) → k ≢ key → r'.cl_sockets k ≡ r.cl_sockets k)
      → ((k : ℕ) → k ≢ key → e.interest r'.epoll k ≡ e.interest r.epoll k)
      → Agrees key r'
      → Serves r
      → Serves r'
  change key r r' t so si g m = record {
    each = λ k n v. elim (Bool-cases (k == key)) [
      | inl p ↦ subst (λ j. Agrees j r') (sym ((==_iff k key).0 p)) g
      | inr p ↦
          let q = ==→ne k key p in
          Agrees-same (so k q) (si k q) (m.each k (ap (λ f. f k) (sym t) ∙ n) v)
    ];
  }

  Client-Agrees :
      (key : ℕ) (valid : key ≢ no_fd) (r : EchoTcpServer S) (x : S × TcpSocket)
      → Client e key valid x
      → Agrees key (kept e r key x.0 x.1)
  Client-Agrees key valid r x (up c i w) =
      connected x.1 (update_self r.cl_sockets key (some x.1) refl) c i w
  Client-Agrees key valid r x (down c i w) =
      closed x.1 (update_self r.cl_sockets key (some x.1) refl) c i w

  pub Agrees-Client :
      (key : ℕ) (valid : key ≢ no_fd) (r : EchoTcpServer S) (s : TcpSocket)
      → r.cl_sockets key ≡ some s
      → Agrees key r
      → Client e key valid (r.epoll, s)
  Agrees-Client key valid r s h (unused h' w) = absurd (cc (sym h ∙ h'))
  Agrees-Client key valid r s h (connected p h' c i w) =
      let q : p ≡ s = cc (sym h' ∙ h) in
      up (ap (λ u. u.connected) (sym q) ∙ c) (ap (λ u. u.fd) (sym q) ∙ i) w
  Agrees-Client key valid r s h (closed p h' c i w) =
      let q : p ≡ s = cc (sym h' ∙ h) in
      down (ap (λ u. u.connected) (sym q) ∙ c) (ap (λ u. u.fd) (sym q) ∙ i) w

  pub kept-Serves :
      (key : ℕ) (valid : key ≢ no_fd) (r : EchoTcpServer S) (x : S × TcpSocket)
      → Leaves e key valid r.epoll x
      → Serves r
      → Serves (kept e r key x.0 x.1)
  kept-Serves key valid r x l m =
      change key r (kept e r key x.0 x.1) refl
        (λ k n. update_ne r.cl_sockets key (some x.1) (λ p. n (sym p))) l.1
        (Client-Agrees key valid r x l.0) m

  pub forgotten-Serves :
      (key : ℕ) (valid : key ≢ no_fd) (r : EchoTcpServer S) (x : S × TcpSocket)
      → Leaves e key valid r.epoll x
      → Serves r
      → Serves (forgotten e r key x.0)
  forgotten-Serves key valid r x l m =
      let w = e.del_open x.0 key valid in
      change key r (forgotten e r key x.0) refl
        (λ k n. update_ne r.cl_sockets key none (λ p. n (sym p)))
        (λ k n. ap (λ g. g k) w ∙ update_ne (e.interest x.0) key none (λ p. n (sym p)) ∙ l.1 k n)
        (unused (update_self r.cl_sockets key none refl)
          (ap (λ g. g key) w ∙ update_self (e.interest x.0) key none refl))
        m

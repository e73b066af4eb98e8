-- ===== src/Epoll.antt =====
-- epoll and the descriptors of sockets, as the servers of kv_store/ and TCPServer/ use them. What
-- epoll does is an interface; -1 is the descriptor of a closed socket.
pub mod Small
use learn_space.Base.{ℕ, ◌-◌, ◌^◌, ◌≡◌, ◌≢◌, Bool, true, false, Option, some, update}

abbrev pub no_fd : ℕ
no_fd = 2 ^ 32 - 1

-- `EPOLLIN`, `EPOLLOUT` and `EPOLLET`.
pub record Flags : Type 0 where
  pub input : Bool
  pub output : Bool
  pub edge : Bool

-- `epoll_ctl` and `close`: what a descriptor is watched for, in the states `S` of epoll. `ctl_add`
-- tells whether the descriptor was there already (EEXIST), and then changes nothing; what is called
-- on -1 changes nothing (EBADF).
pub record Epoll (S : Type 0) : Type 0 where
  pub interest : S → ℕ → Option Flags
  pub ctl_add : S → ℕ → Flags → S × Bool
  pub ctl_mod : S → ℕ → Flags → S
  pub ctl_del : S → ℕ → S
  pub close : S → ℕ → S
  pub add_new :
      (s : S) (fd : ℕ) (f : Flags)
      → fd ≢ no_fd
      → interest s fd ≡ Option.none
      → ((ctl_add s fd f).1 ≡ false)
        × (interest (ctl_add s fd f).0 ≡ update (interest s) fd (some f))
  pub add_again :
      (s : S) (fd : ℕ) (f g : Flags)
      → fd ≢ no_fd
      → interest s fd ≡ some g
      → ((ctl_add s fd f).1 ≡ true) × (interest (ctl_add s fd f).0 ≡ interest s)
  pub mod_again :
      (s : S) (fd : ℕ) (f g : Flags)
      → fd ≢ no_fd
      → interest s fd ≡ some g
      → interest (ctl_mod s fd f) ≡ update (interest s) fd (some f)
  pub del_open :
      (s : S) (fd : ℕ) → fd ≢ no_fd → interest (ctl_del s fd) ≡ update (interest s) fd Option.none
  pub del_closed : (s : S) → interest (ctl_del s no_fd) ≡ interest s
  pub close_open :
      (s : S) (fd : ℕ) → fd ≢ no_fd → interest (close s fd) ≡ update (interest s) fd Option.none
  pub close_closed : (s : S) → interest (close s no_fd) ≡ interest s

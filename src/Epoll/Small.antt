-- ===== src/Epoll/Small.antt =====
-- A small model of epoll: what each descriptor is watched for.
use learn_space.Base.{
  ℕ, ◌≡◌, ◌≢◌, refl, Bool, true, false, Option, some, if◌then◌else◌, ◌==◌, update, ne→==,
}
use learn_space.Epoll.{no_fd, Flags, Epoll}

abbrev pub Watches : Type 0
Watches = ℕ → Option Flags

abbrev is_some : Option Flags → Bool
is_some Option.none = false
is_some (some f) = true

-- `EPOLL_CTL_ADD` on what a descriptor is watched for.
abbrev add : Watches → ℕ → Flags → Option Flags → Watches × Bool
add s fd f Option.none = (update s fd (some f), false)
add s fd f (some g) = (s, true)

abbrev pub unwatch : Watches → ℕ → Watches
unwatch s fd = if fd == no_fd then s else update s fd Option.none

pub unwatch_open : (s : Watches) (fd : ℕ) → fd ≢ no_fd → unwatch s fd ≡ update s fd Option.none
unwatch_open s fd n = rw (ne→== fd no_fd n) refl

abbrev pub epoll : Epoll Watches
epoll = record {
  interest = λ s. s;
  ctl_add = λ s fd f. add s fd f (s fd);
  ctl_mod = λ s fd f. update s fd (some f);
  ctl_del = unwatch;
  close = unwatch;
  add_new = λ s fd f n w. rw w (refl, refl);
  add_again = λ s fd f g n w. rw w (refl, refl);
  mod_again = λ s fd f g n w. refl;
  del_open = unwatch_open;
  del_closed = λ s. refl;
  close_open = unwatch_open;
  close_closed = λ s. refl;
}

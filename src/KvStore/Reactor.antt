-- ===== src/KvStore/Reactor.antt =====
-- The reactor of kv_store/ReactorServer.cpp: `ReactorServer`, and the fields of `ReactorEventObj`. What
-- epoll does is a parameter. -1 is the descriptor of a closed socket.
pub mod Sockets
pub mod Handlers
pub mod Phases
pub mod Steps
pub mod Closing
pub mod Retyping
pub mod Turns
pub mod Matches
pub mod Loop
pub mod Traffic
pub mod Reuse
mod Tests
use mathlib.Core.Option
use learn_space.Base.{
  ℕ, ◌+◌, ◌-◌, ◌^◌, ◌<◌, ◌≡◌, ◌≢◌, Bool, true, false, ◌||◌, Option, some, List, [], ◌∷◌, ◌++◌,
  length, take, drop, Outcome, ok, faults, diverges, ◌>>=◌, if◌then◌else◌, ◌==◌, ltb, update,
}
use learn_space.KvStore.Text.{Text, append, remove_front}
use learn_space.KvStore.Protocol.{analysis}
use learn_space.Epoll.{no_fd, Flags, Epoll}

pub data EventType : Type 0 where
  no_event : EventType
  accept : EventType
  read : EventType
  write : EventType
  read_and_write : EventType

pub data TriggerMode : Type 0 where
  lt : TriggerMode
  et : TriggerMode

pub record EventObj : Type 0 where
  pub fd : ℕ
  pub type : EventType
  pub mode : TriggerMode
  pub recv_buffer : Text
  pub send_buffer : List ℕ

abbrev pub input_of : EventType → Bool
input_of accept = true
input_of read = true
input_of read_and_write = true
input_of write = false
input_of no_event = false

abbrev pub output_of : EventType → Bool
output_of read_and_write = true
output_of write = true
output_of accept = false
output_of read = false
output_of no_event = false

abbrev pub edge_of : TriggerMode → Bool
edge_of et = true
edge_of lt = false

abbrev pub flags_of : EventObj → Flags
flags_of o = record { input = input_of o.type; output = output_of o.type; edge = edge_of o.mode }

-- An entry of `_eventMap`: none, a null pointer that `operator[]` has put there, or an object.
pub data Slot : Type 0 where
  absent : Slot
  null : Slot
  held : EventObj → Slot

pub record Reactor (S : Type 0) : Type 0 where
  pub objects : ℕ → Slot
  pub epoll : S

abbrev pub written : Slot → EventObj → Slot
written absent o = absent
written null o = null
written (held old) o = held o

module _ {S : Type 0} (e : Epoll S) where
  -- The fields of the object under a key, written; `_eventMap` may have forgotten the object.
  unfoldable pub store : Reactor S → ℕ → EventObj → Reactor S
  store r key o = record r { objects = update r.objects key (written (r.objects key) o) }

  unfoldable pub watch : Reactor S → EventObj → Reactor S
  watch r o =
      let (s, exists) = e.ctl_add r.epoll o.fd (flags_of o) in
      record r { epoll = if exists then e.ctl_mod s o.fd (flags_of o) else s }

  abbrev pub update_slot : Reactor S → Slot → Outcome (Reactor S)
  update_slot r absent = ok r
  update_slot r null = faults
  update_slot r (held o) = ok (watch r o)

  unfoldable pub update_event_obj : Reactor S → ℕ → Outcome (Reactor S)
  update_event_obj r fd = update_slot r (r.objects fd)

  abbrev pub add_slot : Reactor S → EventObj → Slot → Outcome (Reactor S)
  add_slot r o absent =
      update_event_obj (record r { objects = update r.objects o.fd (held o) }) o.fd
  add_slot r o null = ok r
  add_slot r o (held old) = ok r

  unfoldable pub add_event_obj : Reactor S → EventObj → Outcome (Reactor S)
  unfolding update_event_obj
  add_event_obj r o = add_slot r o (r.objects o.fd)

  unfoldable pub remove_event_obj : Reactor S → ℕ → Reactor S
  remove_event_obj r fd = record {
    objects = update r.objects fd absent;
    epoll = e.ctl_del r.epoll fd;
  }

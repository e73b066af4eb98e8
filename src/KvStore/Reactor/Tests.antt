-- ===== src/KvStore/Reactor/Tests.antt =====
-- The reactor of kv_store over a small model of epoll, and its sockets on a few answers.
use learn_space.Base.{
  ℕ, ◌≡◌, refl, true, false, Option, some, List, [], ◌∷◌, ◌++◌, map, ok, faults, ◌>>=◌,
  if◌then◌else◌, ◌==◌, update, ne→==, Returned, Returned-all, arith,
}
use learn_space.Epoll.Small.{Watches, unwatch, epoll}
use learn_space.KvStore.Text.{Text, contents, remove_front}
use learn_space.KvStore.Protocol.{appended, analysis, analysis_loop}
use learn_space.Epoll.{no_fd}
use learn_space.KvStore.Reactor.{
  flags_of, EventObj, absent, held, Reactor, store, watch, update_event_obj, add_event_obj,
  remove_event_obj,
}
use learn_space.KvStore.Reactor.Sockets.{
  end, would_block, failed, took, not_now, recv_loop, send_loop, drop_sent,
}
use learn_space.KvStore.Reactor.Handlers.{
  Ready, new_client, happen_error, close_imp, on_accept, handle_event, handle_events, handle_slot,
  on_recv, save, recv_imp,
}
use learn_space.KvStore.Reactor.Matches.{nothing, Matches}
use learn_space.KvStore.Reactor.Loop.{Valid, AllValid, handle_events-Matches}
use learn_space.KvStore.Reactor.Traffic.{
  arrives, recv_gathers, sent_up_to, send_whole, Keeps, send_no_loss,
}
use learn_space.KvStore.Reactor.Reuse.{error_blocks, close_frees}

-- Only the listening socket, 3, is watched.
abbrev start : Reactor Watches
start = record {
  objects = λ fd. absent;
  epoll = λ fd.
      if fd == 3 then some (record { input = true; output = false; edge = true }) else Option.none;
}

start-Matches : Matches epoll 3 start
start-Matches = record { each = λ k n v. nothing refl (rw (ne→== k 3 n) refl); vacant = refl }

-- A client on 5 is accepted, and sends nothing before it closes.
abbrev accepting : Ready
accepting = record {
  fd = 3;
  input = true;
  output = false;
  accepted = some 5;
  received = [];
  sent = [];
}

abbrev receiving : Ready
receiving = record {
  fd = 5;
  input = true;
  output = false;
  accepted = Option.none;
  received = end ∷ [];
  sent = [];
}

accepting-Valid : Valid epoll 3 start accepting
accepting-Valid = record {
  reported = λ p. omega arith;
  accepts = λ fd p.
      let q : 5 ≡ fd = cc p in
      record {
        valid = λ h. omega arith;
        other = λ h. omega arith;
        unwatched = rw (ne→== fd 3 (λ h. omega (arith, q, h))) refl;
      };
}

receiving-Valid : (r : Reactor Watches) → Valid epoll 3 r receiving
receiving-Valid r = record { reported = λ p. omega arith; accepts = λ fd p. absurd (cc p) }

events-AllValid : AllValid epoll 3 start (accepting ∷ receiving ∷ [])
events-AllValid = (
  accepting-Valid,
  Returned-all (λ r1. AllValid epoll 3 r1 (receiving ∷ [])) (handle_event epoll 3 start accepting)
      (λ r1. (
        receiving-Valid r1,
        Returned-all (λ r2. Unit) (handle_event epoll 3 r1 receiving) (λ r2. tt),
      )),
)

handle_events-Matches_example :
    Returned (Matches epoll 3) (handle_events epoll 3 start (accepting ∷ receiving ∷ []))
handle_events-Matches_example =
    handle_events-Matches epoll 3 start (accepting ∷ receiving ∷ []) events-AllValid start-Matches

abbrev two_chunks : List (ℕ × List ℕ)
two_chunks = (b'a', b'b' ∷ []) ∷ (b'c', []) ∷ []

recv_gathers_example :
    ((u : Text) × (recv_loop (appended []) (map arrives two_chunks ++ would_block ∷ [])
        ≡ ok (record { text = u; peer_closed = false }))
      × (contents u ≡ b'a' ∷ b'b' ∷ b'c' ∷ []))
    × (recv_loop (appended []) (map arrives two_chunks ++ failed ∷ []) ≡ faults)
recv_gathers_example = recv_gathers (appended []) two_chunks false [] (omega arith)

abbrev reply : List ℕ
reply = b'O' ∷ b'K' ∷ b'\n' ∷ []

send_whole_example :
    (send_loop reply 0 [] false (took 2 ∷ took 1 ∷ []) ≡ sent_up_to 3 reply false)
    × (drop_sent reply 3 ≡ ok [])
send_whole_example =
    send_whole reply (2 ∷ 1 ∷ []) (omega arith) (omega arith, (omega arith, tt)) refl

send_no_loss_example : Keeps reply (send_loop reply 0 [] false (took 2 ∷ not_now ∷ []))
send_no_loss_example =
    send_no_loss reply (took 2 ∷ not_now ∷ []) (tt, (tt, tt)) (omega arith) (omega arith)

abbrev client : EventObj
client = new_client 5

-- The client on 5, entered and watched.
abbrev serving : Reactor Watches
serving = record {
  objects = update (λ fd. absent) 5 (held client);
  epoll = update start.epoll 5 (some (flags_of client));
}

error_blocks_example :
    let r1 = (happen_error epoll 5 (serving, client)).0 in
    (on_accept epoll r1 (some 5) ≡ ok (record r1 { epoll = unwatch r1.epoll 5 }))
    × (r1.objects 5 ≡ held (record client { fd = no_fd }))
error_blocks_example = error_blocks epoll 5 serving client (λ p. omega arith) refl refl

close_frees_example :
    (r2 : Reactor Watches) × (on_accept epoll (close_imp epoll 5 (serving, client)).0 (some 5)
      ≡ ok r2)
    × (r2.objects 5 ≡ held client)
    × (r2.epoll 5 ≡ some (flags_of client))
close_frees_example = close_frees epoll 5 serving client (λ p. omega arith) refl

-- The two events, run: the client is gone, and nothing is watched for it.
events_run :
    (handle_events epoll 3 start (accepting ∷ receiving ∷ []) >>= λ r. ok (r.objects 5)) ≡ ok absent
unfolding handle_events handle_event handle_slot on_accept add_event_obj update_event_obj watch
    on_recv recv_loop save store recv_imp analysis analysis_loop remove_front close_imp
    remove_event_obj
events_run = refl

-- ===== src/KvStore/Reactor/Sockets.antt =====
-- The loops of `ReactorEventObj::onRecv` and `onSend` of kv_store/ReactorServer.cpp. What the socket
-- answers, call by call, is a list of answers.
use learn_space.Base.{
  ℕ, zero, suc, leb, ◌+◌, ◌-◌, Bool, true, false, List, [], ◌∷◌, ◌++◌, length, take, drop, Outcome,
  ok, faults, diverges, if◌then◌else◌, ◌==◌, ltb,
}
use learn_space.KvStore.Text.{int_limit, Text, append}

-- What `recv` answers, of bytes the first and the others, and `send`; `took n` is `ret` as an `int`, and so
-- below 2 ^ 31 (Linux sends at most 0x7ffff000 bytes in a call).
pub data Received : Type 0 where
  bytes : ℕ → List ℕ → Received
  end : Received
  would_block : Received
  failed : Received

pub data Sent : Type 0 where
  took : ℕ → Sent
  closed_by_peer : Sent
  not_now : Sent
  refused : Sent

pub record SendEnd : Type 0 where
  pub offset : ℕ
  pub wire : List ℕ
  pub peer_closed : Bool
  pub error : Bool

-- The loop of `onSend`; `wire` is what the socket has taken. A `send` of 0 bytes is a peer that has
-- closed. The `int` offset must stay below 2 ^ 31; after an error it falls by one, and below 0 the
-- bytes to send are outside the buffer.
unfoldable pub send_loop : List ℕ → ℕ → List ℕ → Bool → List Sent → Outcome SendEnd
send_loop buffer offset wire error [] =
    if length buffer == offset
    then ok (record { offset = offset; wire = wire; peer_closed = false; error = error })
    else diverges
send_loop buffer offset wire error (took zero ∷ answers) = ok (record {
  offset = offset;
  wire = wire;
  peer_closed = if length buffer == offset then false else true;
  error = error;
})
send_loop buffer offset wire error (took (suc n) ∷ answers) =
    let sent = suc n in
    let next =
      send_loop buffer (offset + sent) (wire ++ take sent (drop offset buffer)) error answers in
    if length buffer == offset
    then ok (record { offset = offset; wire = wire; peer_closed = false; error = error })
    else if leb int_limit (offset + sent)
    then faults
    else next
send_loop buffer offset wire error (closed_by_peer ∷ answers) = ok (record {
  offset = offset;
  wire = wire;
  peer_closed = if length buffer == offset then false else true;
  error = error;
})
send_loop buffer offset wire error (not_now ∷ answers) =
    ok (record { offset = offset; wire = wire; peer_closed = false; error = error })
send_loop buffer offset wire error (refused ∷ answers) =
    let rest = send_loop buffer (offset - 1) wire true answers in
    if length buffer == offset
    then ok (record { offset = offset; wire = wire; peer_closed = false; error = error })
    else if offset == 0
    then faults
    else rest

pub record RecvEnd : Type 0 where
  pub text : Text
  pub peer_closed : Bool

-- The loop of `onRecv`. After an error it appends -1 bytes.
unfoldable pub recv_loop : Text → List Received → Outcome RecvEnd
recv_loop t [] = diverges
recv_loop t (bytes b bs ∷ answers) = recv_loop (append t (b ∷ bs)) answers
recv_loop t (end ∷ answers) = ok (record { text = t; peer_closed = true })
recv_loop t (would_block ∷ answers) = ok (record { text = t; peer_closed = false })
recv_loop t (failed ∷ answers) = faults

-- `_sendBuffer.remove(0, offset)`
unfoldable pub drop_sent : List ℕ → ℕ → Outcome (List ℕ)
drop_sent buffer offset =
    if ltb offset (length buffer - offset) then faults else ok (drop offset buffer)

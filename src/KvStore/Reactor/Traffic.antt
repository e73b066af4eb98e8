-- ===== src/KvStore/Reactor/Traffic.antt =====
-- What the loops of `onRecv` and `onSend` of kv_store do with the bytes.
use learn_space.Base.{
  ◌<◌, lt→leb, zero, suc, throws, aborts, ℕ, ◌+◌, ◌-◌, ◌≤◌, ◌≡◌, refl, sym, ap, ◌∙◌, Bool, true,
  false, List, [], ◌∷◌, ◌++◌, map, append-nil, append_assoc, length, length-append, length-take,
  take, drop, drop-drop, drop_of_length-le, take-append, take-append-drop, Outcome, ok, faults,
  if◌then◌else◌, ◌==◌, ==_iff, eq→==, Bool-cases, inl, inr, All, le→ltb, diverges, arith,
}
use learn_space.KvStore.Text.{int_limit, Text, contents, append}
use learn_space.KvStore.Reactor.Sockets.{
  Received, bytes, end, would_block, failed, Sent, took, not_now, closed_by_peer, refused, SendEnd,
  send_loop, recv_loop, drop_sent,
}

abbrev pub total : List ℕ → ℕ
total [] = 0
total (n ∷ ns) = n + total ns

-- Bytes appended to a text, whatever is behind them in the buffer.
grown :
    (t : Text) (bs behind : List ℕ)
    → t.size ≤ length t.buffer
    → (take (t.size + length bs) (contents t ++ (bs ++ behind)) ≡ contents t ++ bs)
      × (t.size + length bs ≤ length (contents t ++ (bs ++ behind)))
grown t bs behind h =
    let n = length-take t.size t.buffer in
    let joint = length-append (contents t) bs in
    let whole = length-append (contents t) (bs ++ behind) in
    let back = length-append bs behind in
    (
      ap (take (t.size + length bs)) (sym (append_assoc (contents t) bs behind))
          ∙ take-append (t.size + length bs) (contents t ++ bs) behind (omega (arith, n, joint)),
      omega (arith, n, whole, back),
    )

append-contents :
    (t : Text) (bs : List ℕ)
    → t.size ≤ length t.buffer
    → (contents (append t bs) ≡ contents t ++ bs)
      × ((append t bs).size ≤ length (append t bs).buffer)
unfolding append
append-contents t bs h = grown t bs _ h

-- What a call that ends the loop answers: whether the peer has closed.
abbrev pub stop : Bool → Received
stop true = end
stop false = would_block

-- The answer to a `recv` that a chunk arrives at, and the bytes of the chunks.
abbrev pub arrives : ℕ × List ℕ → Received
arrives (b, bs) = bytes b bs

abbrev pub joined : List (ℕ × List ℕ) → List ℕ
joined [] = []
joined ((b, bs) ∷ chunks) = (b ∷ bs) ++ joined chunks

gathers :
    (t : Text) (chunks : List (ℕ × List ℕ)) (closed : Bool) (rest : List Received)
    → t.size ≤ length t.buffer
    → (u : Text) × (recv_loop t (map arrives chunks ++ stop closed ∷ rest)
        ≡ ok (record { text = u; peer_closed = closed }))
      × (contents u ≡ contents t ++ joined chunks)
unfolding recv_loop
gathers t [] true rest h = (t, refl, sym (append-nil (contents t)))
gathers t [] false rest h = (t, refl, sym (append-nil (contents t)))
gathers t ((b, bs) ∷ chunks) closed rest h =
    let chunk = b ∷ bs in
    let a = append-contents t chunk h in
    let (u, runs, whole) = gathers (append t chunk) chunks closed rest a.1 in
    (
      u,
      runs,
      whole ∙ ap (λ xs. xs ++ joined chunks) a.0 ∙ append_assoc (contents t) chunk (joined chunks),
    )

recv_error :
    (t : Text) (chunks : List (ℕ × List ℕ)) (rest : List Received)
    → recv_loop t (map arrives chunks ++ failed ∷ rest) ≡ faults
unfolding recv_loop
recv_error t [] rest = refl
recv_error t ((b, bs) ∷ chunks) rest = recv_error (append t (b ∷ bs)) chunks rest

-- The loop of `onRecv` puts the chunks that arrive, each of a byte at least, behind the bytes that
-- are there, in order, until nothing more is there or the peer has closed, and tells which; after a
-- failed `recv` its append of -1 bytes is undefined.
pub recv_gathers :
    (t : Text) (chunks : List (ℕ × List ℕ)) (closed : Bool) (rest : List Received)
    → t.size ≤ length t.buffer
    → ((u : Text) × (recv_loop t (map arrives chunks ++ stop closed ∷ rest)
          ≡ ok (record { text = u; peer_closed = closed }))
        × (contents u ≡ contents t ++ joined chunks))
      × (recv_loop t (map arrives chunks ++ failed ∷ rest) ≡ faults)
recv_gathers t chunks closed rest h = (gathers t chunks closed rest h, recv_error t chunks rest)

-- The end of the loop of `onSend` with nothing against it.
abbrev pub sent_up_to : ℕ → List ℕ → Bool → Outcome SendEnd
sent_up_to n wire error =
    ok (record { offset = n; wire = wire; peer_closed = false; error = error })

-- One more piece on the wire.
piece_sent :
    (buffer wire : List ℕ) (offset n : ℕ)
    → (wire ++ take n (drop offset buffer)) ++ drop (offset + n) buffer ≡ wire ++ drop offset buffer
piece_sent buffer wire offset n =
    append_assoc wire (take n (drop offset buffer)) (drop (offset + n) buffer)
    ∙ ap (λ xs. wire ++ (take n (drop offset buffer) ++ xs)) (sym (drop-drop n offset buffer))
    ∙ ap (λ xs. wire ++ xs) (take-append-drop n (drop offset buffer))

-- All is sent at the end of the buffer.
at_end :
    (buffer wire : List ℕ) (offset : ℕ) (error : Bool)
    → length buffer ≡ offset
    → sent_up_to offset wire error ≡ sent_up_to (length buffer) (wire ++ drop offset buffer) error
at_end buffer wire offset error q =
    ap (λ n. sent_up_to n wire error) (sym q)
    ∙ ap (λ w. sent_up_to (length buffer) w error)
        (sym (append-nil wire)
          ∙ ap (λ xs. wire ++ xs) (sym (drop_of_length-le offset buffer (omega (arith, q)))))

-- All that is left is sent, in order.
send_rest :
    (buffer : List ℕ) (offset : ℕ) (wire : List ℕ) (error : Bool) (ns : List ℕ)
    → offset + total ns ≡ length buffer
    → length buffer < int_limit
    → All (λ n. 0 < n) ns
    → send_loop buffer offset wire error (map took ns)
      ≡ sent_up_to (length buffer) (wire ++ drop offset buffer) error
unfolding send_loop
send_rest buffer offset wire error [] h small some_bytes =
    let q : length buffer ≡ offset = omega (arith, h) in
    rw (eq→== (length buffer) offset q) (at_end buffer wire offset error q)
send_rest buffer offset wire error (zero ∷ ns) h small some_bytes =
    absurd (omega (arith, some_bytes.0))
send_rest buffer offset wire error (suc n ∷ ns) h small some_bytes =
    elim (Bool-cases (length buffer == offset)) [
      | inl done ↦
          rw done (at_end buffer wire offset error ((==_iff (length buffer) offset).0 done))
      | inr more ↦
          let k = suc n in
          rw (more, lt→leb int_limit (offset + k) (omega (arith, h, small)))
            (send_rest buffer (offset + k) (wire ++ take k (drop offset buffer)) error ns
                (omega (arith, h)) small some_bytes.1
              ∙ ap (λ w. sent_up_to (length buffer) w error) (piece_sent buffer wire offset k))
    ]

-- If the calls of `send` take all of the bytes of a buffer below 2 ^ 31, in any pieces that are not
-- empty, the loop of `onSend` ends with the whole buffer on the wire in order, and nothing is left to
-- send.
pub send_whole :
    (buffer ns : List ℕ)
    → length buffer < int_limit
    → All (λ n. 0 < n) ns
    → total ns ≡ length buffer
    → (send_loop buffer 0 [] false (map took ns) ≡ sent_up_to (length buffer) buffer false)
      × (drop_sent buffer (length buffer) ≡ ok [])
unfolding drop_sent
send_whole buffer ns small some_bytes h = (
  send_rest buffer 0 [] false ns (omega (arith, h)) small some_bytes,
  rw (le→ltb (length buffer) (length buffer - length buffer) (omega arith))
      (ap ok (drop_of_length-le (length buffer) buffer (omega arith))),
)

abbrev pub NoError : Sent → Type 0
NoError (took n) = Unit
NoError closed_by_peer = Unit
NoError not_now = Unit
NoError refused = ⊥

-- The bytes that the calls take.
abbrev pub taken : List Sent → ℕ
taken [] = 0
taken (took n ∷ answers) = n + taken answers
taken (closed_by_peer ∷ answers) = taken answers
taken (not_now ∷ answers) = taken answers
taken (refused ∷ answers) = taken answers

-- What is on the wire, and what is behind the offset, are the buffer.
abbrev pub Kept : List ℕ → SendEnd → Type 0
Kept buffer s = s.wire ++ drop s.offset buffer ≡ buffer

-- The loop ends so, or waits for one more answer.
abbrev pub Keeps : List ℕ → Outcome SendEnd → Type 0
Keeps buffer (ok s) = Kept buffer s
Keeps buffer throws = ⊥
Keeps buffer aborts = ⊥
Keeps buffer faults = ⊥
Keeps buffer diverges = Unit

send-Keeps :
    (buffer : List ℕ) (offset : ℕ) (wire : List ℕ) (error : Bool) (answers : List Sent)
    → All NoError answers
    → length buffer < int_limit
    → offset + taken answers ≤ length buffer
    → wire ++ drop offset buffer ≡ buffer
    → Keeps buffer (send_loop buffer offset wire error answers)
unfolding send_loop
send-Keeps buffer offset wire error [] h small fits k = either (length buffer == offset)
  where
    either : (b : Bool) → Keeps buffer (if b then sent_up_to offset wire error else diverges)
    either true = k
    either false = tt
send-Keeps buffer offset wire error (took zero ∷ answers) h small fits k = k
send-Keeps buffer offset wire error (took (suc n) ∷ answers) h small fits k =
    elim (Bool-cases (length buffer == offset)) [
      | inl done ↦ rw done k
      | inr more ↦
          rw (more, lt→leb int_limit (offset + suc n) (omega (arith, fits, small)))
            (send-Keeps buffer (offset + suc n) (wire ++ take (suc n) (drop offset buffer)) error
              answers h.1 small (omega (arith, fits)) (piece_sent buffer wire offset (suc n) ∙ k))
    ]
send-Keeps buffer offset wire error (closed_by_peer ∷ answers) h small fits k = k
send-Keeps buffer offset wire error (not_now ∷ answers) h small fits k = k
send-Keeps buffer offset wire error (refused ∷ answers) h small fits k = absurd h.0

-- While no call of `send` fails, and the calls take no more bytes than a buffer below 2 ^ 31 has, the
-- loop of `onSend` overflows nothing and reads nothing outside the buffer; when it ends, what it has
-- put on the wire, followed by the bytes behind its offset, is the buffer.
pub send_no_loss :
    (buffer : List ℕ) (answers : List Sent)
    → All NoError answers
    → length buffer < int_limit
    → taken answers ≤ length buffer
    → Keeps buffer (send_loop buffer 0 [] false answers)
send_no_loss buffer answers h small fits =
    send-Keeps buffer 0 [] false answers h small (omega (arith, fits)) refl

-- ===== src/Dns/Query.antt =====
-- `DNSServe::query` (DNSServe.cpp), from the name to the addresses.
use learn_space.Base.{
  ℕ, zero, suc, ◌-◌, ◌≤◌, ◌<◌, ◌≡◌, refl, sym, ap, ◌∙◌, true, false, Option, some, List, [], ◌∷◌,
  ◌++◌, map, arith, All, length, take, drop, replicate, if◌then◌else◌, ◌==◌, length-append,
  append_assoc, drop-append, ok, ◌&&◌, ◌⊎◌,
}
use learn_space.Dns.{
  Host, Header, Ret, found, get_answer_from_char, get_header_str, get_question_str, query,
}
use learn_space.Dns.Wire.{NetworkOrder, header_round_trip, Shorts}
use learn_space.Dns.Answers.{Wired, Valid, decoded, encode_all, answers_decoded}

take-longer :
    (n : ℕ) (xs ys : List ℕ) → length xs ≤ n → take n (xs ++ ys) ≡ xs ++ take (n - length xs) ys
take-longer n [] ys h = ap (λ k. take k ys) (omega arith)
take-longer zero (x ∷ xs) ys h = absurd (omega arith)
take-longer (suc n) (x ∷ xs) ys h =
    ap (◌∷◌ x) (take-longer n xs ys (omega arith) ∙ ap (λ k. xs ++ take k ys) (omega arith))

encode_all-append :
    (ws : List Wired) (rest more : List ℕ)
    → encode_all ws rest ++ more ≡ encode_all ws (rest ++ more)
unfolding encode_all
encode_all-append [] rest more = refl
encode_all-append (w ∷ ws) rest more = rw (encode_all-append ws rest more) refl

module _ (host : Host) (id : ℕ) (domain : List ℕ) where
  -- The two parts of the message that `query` sends.
  abbrev pub asked_header : List ℕ
  asked_header =
      (get_header_str host
        (record { id = id; flags = 0x100; qdcount = 1; ancount = 0; nscount = 0; arcount = 0 })).0

  abbrev pub asked_question : List ℕ
  asked_question = get_question_str host (record { qname = domain; qtype = 1; qclass = 1 })

-- What `query` returns of a record.
abbrev pub resolved : Host → Wired → Ret
resolved host w = record { vaild = true; ip = host.ntop w.a w.b w.c w.d }

module _ {host : Host} (net : NetworkOrder host) where
  -- The test of the reply lets it pass.
  passes :
      (reply : Header) (id : ℕ)
      → (reply.id ≡ id) ⊎ (reply.flags ≡ 0x101)
      → ((if reply.id == id then false else true) && (if reply.flags == 0x101 then false else true))
        ≡ false
  passes reply id accepted = ground (arith, accepted)

  addresses : (ws : List Wired) → map found (map (decoded host) ws) ≡ map (resolved host) ws
  addresses [] = refl
  addresses (w ∷ ws) = ap (◌∷◌ (resolved host w)) (addresses ws)

  header_length : (h : Header) → length (get_header_str host h).0 ≡ 12
  unfolding get_header_str
  header_length h = refl

  -- `query` gives the addresses of the records in a reply that repeats the question, in order, each
  -- marked as valid, if the name of every record is a pointer of two bytes and its data an address of
  -- four; the reply has the identifier of the request or the flags 0x101, fits in the buffer, and has
  -- fewer than 2 ^ 15 records.
  pub query_resolves :
      (id : ℕ) (domain : List ℕ) (exchange : List ℕ → Option (List ℕ)) (reply : Header)
      (ws : List Wired) (rest : List ℕ)
      → exchange (asked_header host id domain ++ asked_question host id domain)
        ≡ some
            ((get_header_str host reply).0 ++ (asked_question host id domain ++ encode_all ws rest))
      → length
          ((get_header_str host reply).0 ++ (asked_question host id domain ++ encode_all ws rest))
        ≤ 10240
      → Shorts reply
      → (reply.id ≡ id) ⊎ (reply.flags ≡ 0x101)
      → reply.ancount ≡ length ws
      → length ws < 0x8000
      → All Valid ws
      → query host id exchange domain ≡ ok (map (resolved host) ws)
  unfolding query
  query_resolves id domain exchange reply ws rest answered fits shorts accepted count few valid =
      let head = (get_header_str host reply).0 in
      let question = asked_question host id domain in
      let received = head ++ (question ++ encode_all ws rest) in
      let pad = take (10240 - length received) (replicate 10240 0) in
      let answers = encode_all ws (rest ++ pad) in
      let buffer : take 10240 (received ++ replicate 10240 0) ≡ head ++ (question ++ answers) =
        take-longer 10240 received (replicate 10240 0) fits
        ∙ append_assoc head (question ++ encode_all ws rest) pad
        ∙ ap (λ l. head ++ l)
            (append_assoc question (encode_all ws rest) pad
              ∙ ap (λ l. question ++ l) (encode_all-append ws rest pad)) in
      let behind : drop (length (asked_header host id domain ++ question))
            (head ++ (question ++ answers))
          ≡ answers =
        ap (drop (length (asked_header host id domain ++ question)))
          (sym (append_assoc head question answers))
        ∙ drop-append (length (asked_header host id domain ++ question)) (head ++ question) answers
            (omega (
              arith,
              length-append (asked_header host id domain) question,
              length-append head question,
              header_length reply,
              header_length (record {
                id = id;
                flags = 0x100;
                qdcount = 1;
                ancount = 0;
                nscount = 0;
                arcount = 0;
              }),
            )) in
      rw
        (
          answered,
          query,
          buffer,
          header_round_trip net reply (question ++ answers) shorts,
          passes reply id accepted,
          behind,
          ap (get_answer_from_char host answers) count
              ∙ answers_decoded net ws (rest ++ pad) valid few,
        )
        (ap ok (addresses ws))

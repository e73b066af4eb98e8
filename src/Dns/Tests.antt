-- ===== src/Dns/Tests.antt =====
-- Messages of DNSServe.cpp on a little-endian host, on which the theorems are used.
use mathlib.Core.Path.{ap₂}
use learn_space.Base.{
  ℕ, ◌+◌, ◌*◌, ◌/◌, ◌%◌, ◌≡◌, refl, true, Option, some, List, [], ◌∷◌, ◌++◌, arith, ok, inl,
}
use learn_space.Dns.{
  Host, Header, Question, get_header_str, get_question_str, get_answer_from_char, query, split_loop,
  label_loop,
}
use learn_space.Dns.Wire.{NetworkOrder, Shorts}
use learn_space.Dns.Labels.{pieces, join, parse_labels, question_round_trip}
use learn_space.Dns.Answers.{Wired, Valid, encode_all, decoded, answers_decoded}
use learn_space.Dns.Query.{asked_question, query_resolves}

abbrev swapped : ℕ → ℕ
swapped x = x % 256 * 256 + x / 256 % 256

-- The byte of less weight stands first; an address is shown by its four bytes.
abbrev little : Host
little = record {
  htons = swapped;
  ntohs = swapped;
  ntohl = λ x.
      (x % 256 * 256 + x / 256 % 256) * 0x1_0000
      + (x / 0x1_0000 % 256 * 256 + x / 0x100_0000 % 256);
  store16 = λ x. (x % 256, x / 256);
  load16 = λ a b. b * 256 + a;
  load32 = λ a b c d. ((d * 256 + c) * 256 + b) * 256 + a;
  ntop = λ a b c d. a ∷ b ∷ c ∷ d ∷ [];
}

little-NetworkOrder : NetworkOrder little
little-NetworkOrder = record {
  store_htons = λ x h. ap₂ (λ (a b : ℕ). (a, b)) (omega arith) (omega arith);
  ntohs_load = λ a b ha hb. omega arith;
  ntohl_load = λ a b c d ha hb hc hd. omega arith;
}

-- A reply with the identifier 77 and two addresses, and the question for the name `a.bc`.
abbrev reply : Header
reply = record { id = 77; flags = 0x8180; qdcount = 1; ancount = 2; nscount = 0; arcount = 0 }

reply-Shorts : Shorts reply
reply-Shorts = record {
  id_short = omega arith;
  flags_short = omega arith;
  qdcount_short = omega arith;
  ancount_short = omega arith;
  nscount_short = omega arith;
  arcount_short = omega arith;
}

abbrev wired : ℕ → Wired
wired n = record {
  name0 = 0xC0;
  name1 = 12;
  wtype = 1;
  wclass = 1;
  ttl0 = 0;
  ttl1 = 0;
  ttl2 = 1;
  ttl3 = 44;
  a = 10;
  b = 0;
  c = 0;
  d = n;
}

wired-Valid : (n : ℕ) → Valid (wired n)
wired-Valid n = record {
  pointer = omega arith;
  type_short = omega arith;
  class_short = omega arith;
  ttl0_byte = omega arith;
  ttl1_byte = omega arith;
  ttl2_byte = omega arith;
  ttl3_byte = omega arith;
}

abbrev question : Question
question = record { qname = 97 ∷ 46 ∷ 98 ∷ 99 ∷ []; qtype = 1; qclass = 1 }

question_round_trip_example :
    (parse_labels 3 (get_question_str little question)
      ≡ some ((97 ∷ []) ∷ (98 ∷ 99 ∷ []) ∷ [], 0 ∷ 1 ∷ 0 ∷ 1 ∷ []))
    × (join ((97 ∷ []) ∷ (98 ∷ 99 ∷ []) ∷ []) ≡ 97 ∷ 46 ∷ 98 ∷ 99 ∷ [])
unfolding pieces
question_round_trip_example =
    question_round_trip little-NetworkOrder question (omega arith) (omega arith) (omega arith)
      ((omega arith, omega arith), ((omega arith, omega arith), tt))

answers_decoded_example :
    get_answer_from_char little (encode_all (wired 7 ∷ wired 8 ∷ []) (1 ∷ [])) 2
    ≡ ok (decoded little (wired 7) ∷ decoded little (wired 8) ∷ [])
answers_decoded_example =
    answers_decoded little-NetworkOrder (wired 7 ∷ wired 8 ∷ []) (1 ∷ [])
      (wired-Valid 7, (wired-Valid 8, tt)) (omega arith)

abbrev exchange : List ℕ → Option (List ℕ)
exchange msg = some (
    (get_header_str little reply).0
    ++ (asked_question little 77 (97 ∷ []) ++ encode_all (wired 7 ∷ wired 8 ∷ []) []))

query_resolves_example :
    query little 77 exchange (97 ∷ [])
    ≡ ok (
        record { vaild = true; ip = 10 ∷ 0 ∷ 0 ∷ 7 ∷ [] }
        ∷ record { vaild = true; ip = 10 ∷ 0 ∷ 0 ∷ 8 ∷ [] }
        ∷ [])
unfolding get_header_str get_question_str split_loop label_loop encode_all
query_resolves_example =
    query_resolves little-NetworkOrder 77 (97 ∷ []) exchange reply (wired 7 ∷ wired 8 ∷ []) [] refl
      (omega arith) reply-Shorts (inl refl) refl (omega arith) (wired-Valid 7, (wired-Valid 8, tt))

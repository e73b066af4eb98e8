-- ===== src/Dns/Answers.antt =====
-- The answers of a message (`getAnswerFromChar` and `query` of DNSServe.cpp).
use learn_space.Base.{
  ℕ, zero, suc, ◌+◌, ◌*◌, ◌/◌, ◌%◌, ◌≤◌, ◌<◌, ◌≡◌, refl, sym, ap, ◌∙◌, some, List, [], ◌∷◌, ◌++◌,
  map, arith, All, length, length-append, append_assoc, append-nil, lt→ltb, le→leb, ok,
}
use learn_space.Dns.{Host, Answer, byte, answer_at, answer_loop, get_answer_from_char}
use learn_space.Dns.Wire.{NetworkOrder, short_back}

-- An address record on the wire (RFC 1035): its name is a pointer of two bytes, its data four.
pub record Wired : Type 0 where
  pub name0 : ℕ
  pub name1 : ℕ
  pub wtype : ℕ
  pub wclass : ℕ
  pub ttl0 : ℕ
  pub ttl1 : ℕ
  pub ttl2 : ℕ
  pub ttl3 : ℕ
  pub a : ℕ
  pub b : ℕ
  pub c : ℕ
  pub d : ℕ

abbrev pub short : ℕ → List ℕ → List ℕ
short x rest = x / 256 ∷ x % 256 ∷ rest

abbrev pub encode : Wired → List ℕ → List ℕ
encode w rest =
    w.name0
    ∷ w.name1
    ∷ short w.wtype
        (short w.wclass (w.ttl0 ∷ w.ttl1 ∷ w.ttl2 ∷ w.ttl3 ∷ 0 ∷ 4 ∷ w.a ∷ w.b ∷ w.c ∷ w.d ∷ rest))

unfoldable pub encode_all : List Wired → List ℕ → List ℕ
encode_all [] rest = rest
encode_all (w ∷ ws) rest = encode w (encode_all ws rest)

pub record Valid (w : Wired) : Type 0 where
  pub pointer : 0xC0 ≤ w.name0
  pub type_short : w.wtype < 0x1_0000
  pub class_short : w.wclass < 0x1_0000
  pub ttl0_byte : w.ttl0 < 256
  pub ttl1_byte : w.ttl1 < 256
  pub ttl2_byte : w.ttl2 < 256
  pub ttl3_byte : w.ttl3 < 256

module _ (host : Host) where
  -- What such a record says.
  abbrev pub decoded : Wired → Answer
  decoded w = record {
    type = w.wtype;
    aclass = w.wclass;
    ttl = ((w.ttl0 * 256 + w.ttl1) * 256 + w.ttl2) * 256 + w.ttl3;
    rdata_len = 4;
    rdata = host.ntop w.a w.b w.c w.d;
  }

-- Reading behind what is passed over.
byte-append :
    (pre rest : List ℕ) (o k : ℕ) → o ≡ length pre + k → byte (pre ++ rest) o ≡ byte rest k
byte-append [] rest o k h = ap (byte rest) (omega arith)
byte-append (x ∷ pre) rest zero k h = absurd (omega arith)
byte-append (x ∷ pre) rest (suc o) k h = byte-append pre rest o k (omega arith)

module _ {host : Host} (net : NetworkOrder host) where
  answer_at_lem :
      (pre : List ℕ) (w : Wired) (rest : List ℕ) (o f : ℕ)
      → byte (pre ++ encode w rest) 0 ≡ ok f
      → 0xC0 ≤ f
      → Valid w
      → o ≡ length pre
      → answer_at host (pre ++ encode w rest) o ≡ ok (decoded host w, some (o + 16))
  unfolding answer_at
  answer_at_lem pre w rest o f first pointer v h =
      let at = λ (k : ℕ) (i : ℕ) (e : i ≡ length pre + k). byte-append pre (encode w rest) i k e in
      rw
        (
          first,
          le→leb 0xC0 f pointer,
          at 2 (o + 2) (omega arith),
          at 3 (o + 2 + 1) (omega arith),
          at 4 (o + 2 + 2) (omega arith),
          at 5 (o + 2 + 2 + 1) (omega arith),
          at 6 (o + 2 + 4) (omega arith),
          at 7 (o + 2 + 4 + 1) (omega arith),
          at 8 (o + 2 + 4 + 2) (omega arith),
          at 9 (o + 2 + 4 + 3) (omega arith),
          at 10 (o + 2 + 8) (omega arith),
          at 11 (o + 2 + 8 + 1) (omega arith),
          at 12 (o + 2 + 10) (omega arith),
          at 13 (o + 2 + 11) (omega arith),
          at 14 (o + 2 + 12) (omega arith),
          at 15 (o + 2 + 13) (omega arith),
          short_back net w.wtype v.type_short,
          short_back net w.wclass v.class_short,
          net.ntohl_load w.ttl0 w.ttl1 w.ttl2 w.ttl3 v.ttl0_byte v.ttl1_byte v.ttl2_byte
              v.ttl3_byte,
          net.ntohs_load 0 4 (omega arith) (omega arith),
        )
        (ap (λ n. ok (decoded host w, some n)) (omega arith))

  answer_loop_lem :
      (pre : List ℕ) (ws : List Wired) (rest : List ℕ) (o f : ℕ) (ret : List Answer)
      → byte (pre ++ encode_all ws rest) 0 ≡ ok f
      → 0xC0 ≤ f
      → All Valid ws
      → o ≡ length pre
      → answer_loop host (length ws) (pre ++ encode_all ws rest) (some o) ret
        ≡ ok (ret ++ map (decoded host) ws)
  unfolding answer_loop encode_all
  answer_loop_lem pre [] rest o f ret first pointer v h = ap ok (sym (append-nil ret))
  answer_loop_lem pre (w ∷ ws) rest o f ret first pointer v h =
      let whole = append_assoc pre (encode w []) (encode_all ws rest) in
      let size : o + 16 ≡ length (pre ++ encode w []) =
        omega (arith, length-append pre (encode w [])) in
      let next =
        answer_loop_lem (pre ++ encode w []) ws rest (o + 16) f (ret ++ decoded host w ∷ [])
          (ap (λ l. byte l 0) whole ∙ first) pointer v.1 size in
      rw (answer_at_lem pre w (encode_all ws rest) o f first pointer v.0 h) (
        ap (λ l. answer_loop host (length ws) l (some (o + 16)) (ret ++ decoded host w ∷ []))
          (sym whole)
        ∙ next
        ∙ ap ok (append_assoc ret (decoded host w ∷ []) (map (decoded host) ws)))

  -- Address records whose names are pointers are all read, in order, with their fields; fewer than
  -- 2 ^ 15 of them, since the count is a `short`.
  pub answers_decoded :
      (ws : List Wired) (rest : List ℕ)
      → All Valid ws
      → length ws < 0x8000
      → get_answer_from_char host (encode_all ws rest) (length ws) ≡ ok (map (decoded host) ws)
  unfolding get_answer_from_char answer_loop encode_all
  answers_decoded [] rest v few = refl
  answers_decoded (w ∷ ws) rest v few =
      rw (lt→ltb (length (w ∷ ws)) 0x8000 few)
        (answer_loop_lem [] (w ∷ ws) rest 0 w.name0 [] refl v.0.pointer v refl)

-- ===== src/Dns/Labels.antt =====
-- The question of a message (`getQuestionStr` of DNSServe.cpp): a name as a series of labels.
use mathlib.Core.Option
use learn_space.Base.{
  ℕ, zero, suc, ◌+◌, ◌-◌, ◌/◌, ◌%◌, ◌^◌, ◌&&◌, ◌≤◌, ◌<◌, ◌≡◌, refl, sym, ap, ◌∙◌, Option, none,
  some, List, [], ◌∷◌, ◌++◌, arith, All, length, take, drop, get_elem?, if◌then◌else◌, leb, ◌==◌,
  length-append, append_assoc, append-nil, drop-append, take-append, get_elem?-append,
  take_of_length-le, inl, inr, Bool-cases, le→leb, ne→==,
}
use learn_space.Dns.{Host, Question, split_loop, label_loop, get_question_str}
use learn_space.Dns.Wire.{NetworkOrder, two_bytes_lem}

-- The labels of a name, of which `cur` is the beginning of the first: cut at each dot (46).
unfoldable pub pieces : List ℕ → List ℕ → List (List ℕ)
pieces cur [] = cur ∷ []
pieces cur (c ∷ rest) =
    let cut = cur ∷ pieces [] rest in
    let on = pieces (cur ++ c ∷ []) rest in if c == 46 then cut else on

abbrev pub labels : List ℕ → List (List ℕ)
labels = pieces []

-- Labels with dots between them.
unfoldable dotted : List (List ℕ) → List ℕ
dotted [] = []
dotted (s ∷ names) = 46 ∷ (s ++ dotted names)

unfoldable pub join : List (List ℕ) → List ℕ
unfolding dotted
join [] = []
join (s ∷ names) = s ++ dotted names

-- Labels on the wire (RFC 1035, 3.1): each behind its length, which is at most 63, up to a length of
-- 0; with what follows. A byte with one of its two high bits set begins no label.
unfoldable pub parse_labels : ℕ → List ℕ → Option (List (List ℕ) × List ℕ)
parse_labels zero bytes = none
parse_labels (suc fuel) [] = none
parse_labels (suc fuel) (len ∷ bytes) =
    let rest = parse_labels fuel (drop len bytes) in
    if len == 0
    then some ([], bytes)
    else if leb len 63 && leb len (length bytes)
    then Option.map (λ (names, left). (take len bytes ∷ names, left)) rest
    else none

split_loop_lem :
    (pre cur rest : List ℕ) (i pos : ℕ) (names : List (List ℕ))
    → i ≡ length pre + length cur
    → pos ≡ length pre
    → split_loop (length rest) (pre ++ (cur ++ rest)) i pos names ≡ names ++ pieces cur rest
unfolding split_loop pieces
split_loop_lem pre cur [] i pos names hi hp =
    rw
      (
        drop-append pos pre (cur ++ []) hp,
        take_of_length-le (length (pre ++ (cur ++ [])) - pos) (cur ++ [])
            (omega (arith, length-append pre (cur ++ []))),
        append-nil cur,
      )
      refl
split_loop_lem pre cur (c ∷ rest) i pos names hi hp =
    let here : get_elem? (pre ++ (cur ++ c ∷ rest)) i ≡ some c =
      ap (λ l. get_elem? l i) (sym (append_assoc pre cur (c ∷ rest)))
      ∙ get_elem?-append (pre ++ cur) rest i c (omega (arith, length-append pre cur)) in
    elim (Bool-cases (c == 46)) [
      | inl dot ↦
          let taken : take (i - pos) (drop pos (pre ++ (cur ++ c ∷ rest))) ≡ cur =
            ap (take (i - pos)) (drop-append pos pre (cur ++ c ∷ rest) hp)
            ∙ take-append (i - pos) cur (c ∷ rest) (omega arith) in
          let whole : (pre ++ (cur ++ c ∷ [])) ++ rest ≡ pre ++ (cur ++ c ∷ rest) =
            append_assoc pre (cur ++ c ∷ []) rest
            ∙ ap (λ l. pre ++ l) (append_assoc cur (c ∷ []) rest) in
          let sum : i + 1 ≡ length (pre ++ (cur ++ c ∷ [])) =
            omega (arith, length-append pre (cur ++ c ∷ []), length-append cur (c ∷ [])) in
          let next =
            split_loop_lem (pre ++ (cur ++ c ∷ [])) [] rest (i + 1) (i + 1) (names ++ cur ∷ [])
              (omega (arith, sum)) sum in
          rw (here, split_loop, dot, taken)
            (ap (λ l. split_loop (length rest) l (i + 1) (i + 1) (names ++ cur ∷ [])) (sym whole)
              ∙ next
              ∙ append_assoc names (cur ∷ []) (pieces [] rest))
      | inr other ↦
          let next =
            split_loop_lem pre (cur ++ c ∷ []) rest (i + 1) pos names
              (omega (arith, length-append cur (c ∷ []))) hp in
          rw (here, split_loop, other)
            (ap (λ l. split_loop (length rest) (pre ++ l) (i + 1) pos names)
                (sym (append_assoc cur (c ∷ []) rest))
              ∙ next)
    ]

dotted-pieces : (cur rest : List ℕ) → dotted (pieces cur rest) ≡ 46 ∷ join (pieces cur rest)
unfolding dotted join pieces
dotted-pieces cur [] = refl
dotted-pieces cur (c ∷ rest) = elim (Bool-cases (c == 46)) [
  | inl dot ↦ rw dot refl
  | inr other ↦ rw other (dotted-pieces (cur ++ c ∷ []) rest)
]

join-pieces : (cur rest : List ℕ) → join (pieces cur rest) ≡ cur ++ rest
unfolding join pieces
join-pieces cur [] = refl
join-pieces cur (c ∷ rest) = elim (Bool-cases (c == 46)) [
  | inl dot ↦ rw dot (
      let same : c ≡ 46 = ground (arith, dot) in
      ap (λ l. cur ++ l)
        (dotted-pieces [] rest ∙ ap (◌∷◌ 46) (join-pieces [] rest) ∙ ap (λ d. d ∷ rest) (sym same)))
  | inr other ↦ rw other (join-pieces (cur ++ c ∷ []) rest ∙ append_assoc cur (c ∷ []) rest)
]

wire : List (List ℕ) → List ℕ
wire [] = []
wire (s ∷ names) = length s % 256 ∷ (s ++ wire names)

label_loop_lem : (names : List (List ℕ)) (ret : List ℕ) → label_loop names ret ≡ ret ++ wire names
unfolding label_loop wire
label_loop_lem [] ret = sym (append-nil ret)
label_loop_lem (s ∷ names) ret =
    (label_loop_lem names ((ret ++ length s % 256 ∷ []) ++ s)
      ∙ append_assoc (ret ++ length s % 256 ∷ []) s (wire names)
      ∙ append_assoc ret (length s % 256 ∷ []) (s ++ wire names))

-- A label of a length that RFC 1035 allows.
abbrev pub Fits : List ℕ → Type 0
Fits s = (1 ≤ length s) × (length s ≤ 63)

parse-wire :
    (fuel : ℕ) (names : List (List ℕ)) (rest : List ℕ)
    → All Fits names
    → length names < fuel
    → parse_labels fuel (wire names ++ 0 ∷ rest) ≡ some (names, rest)
unfolding parse_labels wire
parse-wire zero names rest fits few = absurd (omega arith)
parse-wire (suc fuel) [] rest fits few = refl
parse-wire (suc fuel) (s ∷ names) rest fits few =
    let behind = wire names ++ 0 ∷ rest in
    let whole : (s ++ wire names) ++ 0 ∷ rest ≡ s ++ behind =
      append_assoc s (wire names) (0 ∷ rest) in
    let small : length s % 256 ≡ length s = omega (arith, fits.0) in
    rw
      (
        small,
        whole,
        ne→== (length s) 0 (λ e. omega (arith, fits.0)),
        le→leb (length s) 63 fits.0.1,
        le→leb (length s) (length (s ++ behind)) (omega (arith, length-append s behind)),
        drop-append (length s) s behind refl,
        take-append (length s) s behind refl,
        parse-wire fuel names rest fits.1 (omega arith),
      )
      refl

module _ {host : Host} (net : NetworkOrder host) where
  -- The question, read as a series of labels of at most 63 bytes, gives back the labels of the name,
  -- which make the name again with dots between them, and the type and class, the byte of more weight
  -- first; if the name has fewer than 2 ^ 31 bytes, none of its labels is empty or longer than 63, which
  -- the code does not check, and type and class have 16 bits.
  pub question_round_trip :
      (q : Question)
      → q.qtype < 0x1_0000
      → q.qclass < 0x1_0000
      → length q.qname < 2 ^ 31
      → All Fits (labels q.qname)
      → (parse_labels (suc (length (labels q.qname))) (get_question_str host q)
          ≡ some (
            labels q.qname,
            q.qtype / 256 ∷ q.qtype % 256 ∷ q.qclass / 256 ∷ q.qclass % 256 ∷ [],
          ))
        × (join (labels q.qname) ≡ q.qname)
  unfolding get_question_str
  question_round_trip q ht hc short fits =
      let names = labels q.qname in
      let cut : split_loop (length q.qname) q.qname 0 0 [] ≡ names =
        split_loop_lem [] [] q.qname 0 0 [] refl refl in
      let types = q.qtype / 256 ∷ q.qtype % 256 ∷ q.qclass / 256 ∷ q.qclass % 256 ∷ [] in
      let written : get_question_str host q ≡ wire names ++ 0 ∷ types =
        rw
          (
            cut,
            label_loop_lem names [],
            two_bytes_lem net q.qtype ht,
            two_bytes_lem net q.qclass hc,
          )
          (append_assoc (wire names ++ 0 ∷ []) (q.qtype / 256 ∷ q.qtype % 256 ∷ [])
              (q.qclass / 256 ∷ q.qclass % 256 ∷ [])
            ∙ append_assoc (wire names) (0 ∷ []) types) in
      (
        ap (parse_labels (suc (length names))) written
            ∙ parse-wire (suc (length names)) names types fits (omega arith),
        join-pieces [] q.qname,
      )

-- ===== src/Dns.antt =====
-- DNS/DNSServe.h and DNS/DNSServe.cpp: the messages of `DNSServe`, and its `query`.
-- A byte is a number below 256, a `std::string` or a buffer a list of bytes; a `short` is its 16
-- bits. What the host does is a parameter: how it keeps a `short` or an `int` in memory, the
-- `htons` family, and `inet_ntop`. The `int pos` of `getQuestionStr` is not bounded by the model,
-- which is exact for names below 2 ^ 31 bytes; the theorem on the question takes such a name.
pub mod Wire
pub mod Labels
pub mod Answers
pub mod Query
mod Tests
use learn_space.Base.{
  ℕ, zero, suc, ◌+◌, ◌-◌, ◌%◌, ◌<◌, ◌≡◌, Bool, true, false, ◌&&◌, Option, none, some, List, [], map,
  ◌∷◌, ◌++◌, length, take, drop, get_elem?, replicate, if◌then◌else◌, ltb, leb, ◌==◌, Outcome, ok,
  faults, ◌>>=◌,
}

-- The host: `store16` is a `short` in memory, `load16` and `load32` read one; `ntop` is `inet_ntop`
-- of the four bytes of an address.
pub record Host : Type 0 where
  pub htons : ℕ → ℕ
  pub ntohs : ℕ → ℕ
  pub ntohl : ℕ → ℕ
  pub store16 : ℕ → ℕ × ℕ
  pub load16 : ℕ → ℕ → ℕ
  pub load32 : ℕ → ℕ → ℕ → ℕ → ℕ
  pub ntop : ℕ → ℕ → ℕ → ℕ → List ℕ

pub record Header : Type 0 where
  pub id : ℕ
  pub flags : ℕ
  pub qdcount : ℕ
  pub ancount : ℕ
  pub nscount : ℕ
  pub arcount : ℕ

pub record Question : Type 0 where
  pub qname : List ℕ
  pub qtype : ℕ
  pub qclass : ℕ

pub record Answer : Type 0 where
  pub type : ℕ
  pub aclass : ℕ
  pub ttl : ℕ
  pub rdata_len : ℕ
  pub rdata : List ℕ

pub record Ret : Type 0 where
  pub vaild : Bool
  pub ip : List ℕ

-- The loop of `query` over the answers.
abbrev pub found : Answer → Ret
found a = record { vaild = true; ip = a.rdata }

-- A byte of a buffer; outside it the read is undefined.
abbrev pub byte : List ℕ → ℕ → Outcome ℕ
byte ch i = elim (get_elem? ch i) [ none ↦ faults | some b ↦ ok b ]

-- The loop of `getQuestionStr` over the name, by the rounds left: the labels before each dot
-- (46), and after the loop the rest.
unfoldable pub split_loop : ℕ → List ℕ → ℕ → ℕ → List (List ℕ) → List (List ℕ)
split_loop zero qname i pos names = names ++ take (length qname - pos) (drop pos qname) ∷ []
split_loop (suc rounds) qname i pos names =
    let cut =
      split_loop rounds qname (i + 1) (i + 1) (names ++ take (i - pos) (drop pos qname) ∷ []) in
    let rest = split_loop rounds qname (i + 1) pos names in
    elim (get_elem? qname i) [ none ↦ rest | some c ↦ if c == 46 then cut else rest ]

-- the loop that writes each label after its size, a `char`
unfoldable pub label_loop : List (List ℕ) → List ℕ → List ℕ
label_loop [] ret = ret
label_loop (str ∷ names) ret = label_loop names ((ret ++ length str % 256 ∷ []) ++ str)

-- `offset += answer.rdataLen`, which is negative with its 16th bit set; `none` is before the buffer
abbrev pub advance : ℕ → ℕ → Option ℕ
advance offset rdata_len =
    if ltb rdata_len 0x8000
    then some (offset + rdata_len)
    else if ltb (offset + rdata_len) 0x1_0000
    then none
    else some ((offset + rdata_len) - 0x1_0000)

module _ (host : Host) where
  -- the two bytes of a `short`
  abbrev pub two_bytes : ℕ → List ℕ
  two_bytes x = let (a, b) = host.store16 x in a ∷ b ∷ []

  -- `ntohs(*reinterpret_cast<const short*>(&ch[i]))`
  abbrev pub short_at : List ℕ → ℕ → Outcome ℕ
  short_at ch i = do a ← byte ch i; b ← byte ch (i + 1); ok (host.ntohs (host.load16 a b))

  abbrev pub int_at : List ℕ → ℕ → Outcome ℕ
  int_at ch i = do
    a ← byte ch i
    b ← byte ch (i + 1)
    c ← byte ch (i + 2)
    d ← byte ch (i + 3)
    ok (host.ntohl (host.load32 a b c d))

  -- `getHeaderStr` leaves its fields in network order.
  unfoldable pub get_header_str : Header → List ℕ × Header
  get_header_str h =
      let n : Header = record {
        id = host.htons h.id;
        flags = host.htons h.flags;
        qdcount = host.htons h.qdcount;
        ancount = host.htons h.ancount;
        nscount = host.htons h.nscount;
        arcount = host.htons h.arcount;
      } in
      (
        two_bytes n.id
            ++ two_bytes n.flags
            ++ two_bytes n.qdcount
            ++ two_bytes n.ancount
            ++ two_bytes n.nscount
            ++ two_bytes n.arcount,
        n,
      )

  unfoldable pub get_header_from_char : List ℕ → Outcome Header
  get_header_from_char ch = do
    id ← short_at ch 0
    flags ← short_at ch 2
    qdcount ← short_at ch 4
    ancount ← short_at ch 6
    nscount ← short_at ch 8
    arcount ← short_at ch 10
    ok (record {
      id = id;
      flags = flags;
      qdcount = qdcount;
      ancount = ancount;
      nscount = nscount;
      arcount = arcount;
    })

  unfoldable pub get_question_str : Question → List ℕ
  unfolding split_loop label_loop
  get_question_str q =
      let names = split_loop (length q.qname) q.qname 0 0 [] in
      (label_loop names [] ++ 0 ∷ [])
      ++ two_bytes (host.htons q.qtype)
      ++ two_bytes (host.htons q.qclass)

  -- One round of `getAnswerFromChar`: the answer at `offset`, and the offset behind it. The test
  -- for a pointer is of the first byte of all the answers.
  unfoldable pub answer_at : List ℕ → ℕ → Outcome (Answer × Option ℕ)
  answer_at ch offset = do
    first ← byte ch 0
    let start = if leb 0xC0 first then offset + 2 else offset
    type ← short_at ch start
    aclass ← short_at ch (start + 2)
    ttl ← int_at ch (start + 4)
    rdata_len ← short_at ch (start + 8)
    a ← byte ch (start + 10)
    b ← byte ch (start + 11)
    c ← byte ch (start + 12)
    d ← byte ch (start + 13)
    ok (
      record {
        type = type;
        aclass = aclass;
        ttl = ttl;
        rdata_len = rdata_len;
        rdata = host.ntop a b c d;
      },
      advance (start + 10) rdata_len,
    )

  -- the loop of `getAnswerFromChar`, by the rounds left
  unfoldable pub answer_loop : ℕ → List ℕ → Option ℕ → List Answer → Outcome (List Answer)
  answer_loop zero ch offset ret = ok ret
  answer_loop (suc rounds) ch none ret = faults
  answer_loop (suc rounds) ch (some offset) ret = do
    (answer, next) ← answer_at ch offset
    answer_loop rounds ch next (ret ++ answer ∷ [])

  -- `count` is the `short` of the header: a negative one makes no round.
  unfoldable pub get_answer_from_char : List ℕ → ℕ → Outcome (List Answer)
  get_answer_from_char ch count = answer_loop (if ltb count 0x8000 then count else 0) ch (some 0) []

  -- `query`, where `id` is the random number, and `exchange` sends a message and gives the bytes
  -- that `recv` wrote to the buffer, or `none` without a socket. The buffer is of 10240 bytes.
  unfoldable pub query : ℕ → (List ℕ → Option (List ℕ)) → List ℕ → Outcome (List Ret)
  query id exchange domain =
      let header : Header = record {
        id = id;
        flags = 0x100;
        qdcount = 1;
        ancount = 0;
        nscount = 0;
        arcount = 0;
      } in
      let msg =
        (get_header_str header).0
        ++ get_question_str (record { qname = domain; qtype = 1; qclass = 1 }) in
      elim (exchange msg) [
        | none ↦ ok []
        | some received ↦
            let buffer = take 10240 (received ++ replicate 10240 0) in
            do
              reply ← get_header_from_char buffer
              if (if reply.id == id then false else true)
                    && (if reply.flags == 0x101 then false else true)
                  then ok []
                  else do
                    answers ← get_answer_from_char (drop (length msg) buffer) reply.ancount
                    ok (map found answers)
      ]

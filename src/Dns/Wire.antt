-- ===== src/Dns/Wire.antt =====
-- Numbers on the wire: what the host's functions are documented to do, and the header of a
-- message (DNSServe.cpp).
use learn_space.Base.{
  ℕ, ◌+◌, ◌*◌, ◌/◌, ◌%◌, ◌<◌, ◌≡◌, refl, ap, ◌∙◌, List, [], ◌∷◌, ◌++◌, arith, ok,
}
use learn_space.Dns.{Host, Header, two_bytes, get_header_str, get_header_from_char}

-- Network order is the byte of the most weight first.
pub record NetworkOrder (host : Host) : Type 0 where
  pub store_htons : (x : ℕ) → x < 0x1_0000 → host.store16 (host.htons x) ≡ (x / 256, x % 256)
  pub ntohs_load : (a b : ℕ) → a < 256 → b < 256 → host.ntohs (host.load16 a b) ≡ a * 256 + b
  pub ntohl_load :
      (a b c d : ℕ)
      → a < 256
      → b < 256
      → c < 256
      → d < 256
      → host.ntohl (host.load32 a b c d) ≡ ((a * 256 + b) * 256 + c) * 256 + d

pub record Shorts (h : Header) : Type 0 where
  pub id_short : h.id < 0x1_0000
  pub flags_short : h.flags < 0x1_0000
  pub qdcount_short : h.qdcount < 0x1_0000
  pub ancount_short : h.ancount < 0x1_0000
  pub nscount_short : h.nscount < 0x1_0000
  pub arcount_short : h.arcount < 0x1_0000

module _ {host : Host} (net : NetworkOrder host) where
  pub two_bytes_lem :
      (x : ℕ) → x < 0x1_0000 → two_bytes host (host.htons x) ≡ x / 256 ∷ x % 256 ∷ []
  two_bytes_lem x h = ap (λ p. p.0 ∷ p.1 ∷ []) (net.store_htons x h)

  pub short_back : (x : ℕ) → x < 0x1_0000 → host.ntohs (host.load16 (x / 256) (x % 256)) ≡ x
  short_back x h = net.ntohs_load (x / 256) (x % 256) (omega arith) (omega arith) ∙ omega arith

  -- Reading the header of a message gives the header that was written, if its fields have 16 bits.
  pub header_round_trip :
      (h : Header) (rest : List ℕ)
      → Shorts h
      → get_header_from_char host ((get_header_str host h).0 ++ rest) ≡ ok h
  unfolding get_header_from_char get_header_str
  header_round_trip h rest s =
      rw
        (
          net.store_htons h.id s.id_short,
          net.store_htons h.flags s.flags_short,
          net.store_htons h.qdcount s.qdcount_short,
          net.store_htons h.ancount s.ancount_short,
          net.store_htons h.nscount s.nscount_short,
          net.store_htons h.arcount s.arcount_short,
          short_back h.id s.id_short,
          short_back h.flags s.flags_short,
          short_back h.qdcount s.qdcount_short,
          short_back h.ancount s.ancount_short,
          short_back h.nscount s.nscount_short,
          short_back h.arcount s.arcount_short,
        )
        refl

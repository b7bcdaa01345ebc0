-- ===== src/Podman/Address.antt =====
-- The addresses and prefixes of Go's `net/netip`, as internal/podman/libpod_network.go uses them.
pub mod Overlap
pub mod Print
use whaleshell_driver.Base.{
  ℕ, Str, codes, split, is_nil, length, eqb, leb, ltb, Bool, true, false, not, ◌&&◌, ◌||◌, List, [],
  ◌∷◌, ◌++◌, if◌then◌else◌, Option, none, some, ◌+◌, ◌-◌, ◌*◌, ◌/◌, ◌%◌, ◌^◌,
}
use whaleshell_driver.Base.Decimal.{show, parse_uint}

-- netip.Addr: an address of version 4 or 6, with the zone that only version 6 has.
pub record Addr : Type 0 where
  pub is4 : Bool
  pub value : ℕ
  pub zone : Str

-- netip.Prefix, whose address keeps its host bits
pub record Prefix : Type 0 where
  pub addr : Addr
  pub bits : ℕ

abbrev pub width_of : Bool → ℕ
width_of true = 32
width_of false = 128

-- Addr.BitLen
abbrev pub bit_len : Addr → ℕ
bit_len a = width_of a.is4

abbrev pub same : Bool → Bool → Bool
same true b = b
same false b = not b

-- The network part of an address under a prefix length.
abbrev pub network_part : Bool → ℕ → ℕ → ℕ
network_part is4 bits value = value / 2 ^ (width_of is4 - bits)

-- Prefix.Contains
unfoldable pub contains : Prefix → Addr → Bool
contains p ip =
    leb p.bits (bit_len p.addr)
    && is_nil ip.zone
    && same p.addr.is4 ip.is4
    && eqb (network_part p.addr.is4 p.bits ip.value) (network_part p.addr.is4 p.bits p.addr.value)

-- netip.PrefixFrom: the zone is dropped.
unfoldable pub prefix_from : Addr → ℕ → Prefix
prefix_from a n = record { addr = record a { zone = [] }; bits = n }

-- prefixesOverlap
unfoldable pub prefixes_overlap : Prefix → Prefix → Bool
unfolding contains
prefixes_overlap a b = contains a b.addr || contains b a.addr

-- netip.AddrFrom4
unfoldable pub addr_from4 : ℕ → ℕ → ℕ → ℕ → Addr
addr_from4 a b c d = record { is4 = true; value = ((a * 256 + b) * 256 + c) * 256 + d; zone = [] }

abbrev pub leading_zero : Str → Bool
leading_zero [] = false
leading_zero (c ∷ s) = eqb c b'0' && not (is_nil s)

-- A field of a dotted address: no leading zero, at most 255.
unfoldable pub parse_octet : Str → Option ℕ
unfolding parse_uint
parse_octet s = if leading_zero s then none else parse_uint 8 s

abbrev octets : Option ℕ → Option ℕ → Option ℕ → Option ℕ → Option Addr
octets (some a) (some b) (some c) (some d) = some (addr_from4 a b c d)
octets _ _ _ _ = none

abbrev four_fields : List Str → Option Addr
four_fields (a ∷ b ∷ c ∷ d ∷ []) =
    octets (parse_octet a) (parse_octet b) (parse_octet c) (parse_octet d)
four_fields _ = none

-- The first of the characters that tell the versions apart.
unfoldable pub first_mark : Str → Option ℕ
first_mark [] = none
first_mark (c ∷ s) =
    let rest = first_mark s in if eqb c b'.' || eqb c b':' || eqb c b'%' then some c else rest

-- The text before the last slash and the text behind it.
unfoldable pub cut_last_slash : Str → Option (Str × Str)
cut_last_slash [] = none
cut_last_slash (c ∷ s) = elim (cut_last_slash s) [
  | some (a, b) ↦ some (c ∷ a, b)
  | none ↦ if eqb c b'/' then some ([], s) else none
]

-- `parse6` reads an address of version 6: the value and the zone.
module _ (parse6 : Str → Option (ℕ × Str)) where
  abbrev version6 : Option (ℕ × Str) → Option Addr
  version6 none = none
  version6 (some (n, zone)) = some (record { is4 = false; value = n; zone = zone })

  abbrev parse_marked : Str → Option ℕ → Option Addr
  parse_marked s none = none
  parse_marked s (some c) =
      if eqb c b'.'
      then four_fields (split s b'.')
      else if eqb c b':'
      then version6 (parse6 s)
      else none

  -- netip.ParseAddr
  unfoldable pub parse_addr : Str → Option Addr
  parse_addr s = parse_marked s (first_mark s)

  abbrev pub sized : Addr → Str → Option ℕ → Option Prefix
  sized a digits none = none
  sized a digits (some n) =
      if leading_zero digits || ltb (bit_len a) n || not (is_nil a.zone)
      then none
      else some (record { addr = a; bits = n })

  abbrev pub prefix_of : Option Addr → Str → Option Prefix
  prefix_of none digits = none
  prefix_of (some a) digits = sized a digits (parse_uint 63 digits)

  abbrev pub parse_cut : Option (Str × Str) → Option Prefix
  parse_cut none = none
  parse_cut (some (a, b)) = prefix_of (parse_addr a) b

  -- netip.ParsePrefix
  unfoldable pub parse_prefix : Str → Option Prefix
  parse_prefix s = parse_cut (cut_last_slash s)

-- Addr.String of an address of version 4
unfoldable pub show_addr4 : Addr → Str
show_addr4 a =
    show (a.value / 16777216)
    ++ b'.'
      ∷ (show (a.value / 65536 % 256)
          ++ b'.' ∷ (show (a.value / 256 % 256) ++ b'.' ∷ show (a.value % 256)))

-- Prefix.String of a prefix of version 4
unfoldable pub show_prefix4 : Prefix → Str
show_prefix4 p = show_addr4 p.addr ++ b'/' ∷ show p.bits

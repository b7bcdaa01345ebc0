-- ===== src/Podman/Address/Print.antt =====
-- An address or prefix of version 4 that `netip` prints is read back as itself.
use whaleshell_driver.Base.{
  ℕ, zero, suc, Str, split, eqb, eqb_iff, leb, all, ◌≡◌, ◌≤◌, ◌<◌, ◌/◌, ◌%◌, refl, ap, Bool, true,
  false, not, ◌&&◌, [], ◌∷◌, ◌++◌, Option, none, some, and-eq-true, Bool-cases, subst, ◌+◌, inl,
  inr, arith,
}
use whaleshell_driver.Base.Decimal.{show, parse_uint}
use whaleshell_driver.Podman.Address.{
  Addr, Prefix, addr_from4, parse_octet, first_mark, cut_last_slash, parse_addr, parse_prefix,
  show_addr4, show_prefix4, leading_zero,
}

abbrev is_digit : ℕ → Bool
is_digit c = leb 48 c && leb c 57

abbrev reads : Option ℕ → ℕ → Bool
reads none n = false
reads (some m) n = eqb m n

-- A test of the numbers from `first` on, as many as `count`.
passes_from : (ℕ → Bool) → ℕ → ℕ → Bool
passes_from test first zero = true
passes_from test first (suc count) = passes_from test (suc first) count && test first

passes_from-elim :
    (test : ℕ → Bool) (first count : ℕ) {n : ℕ}
    → passes_from test first count ≡ true
    → first ≤ n
    → n < first + count
    → test n ≡ true
unfolding passes_from
passes_from-elim test first zero h low high = absurd (omega arith)
passes_from-elim test first (suc count) {n} h low high =
    let (later, here) = and-eq-true (passes_from test (suc first) count) (test first) h in
    elim (Bool-cases (eqb first n)) [
      | inl e ↦ subst (λ k. test k ≡ true) ((eqb_iff first n).0 e) here
      | inr ne ↦ passes_from-elim test (suc first) count later (ground arith) (omega arith)
    ]

-- What is checked of every number below 256.
is_octet : ℕ → Bool
is_octet n =
    reads (parse_octet (show n)) n
    && (reads (parse_uint 63 (show n)) n && (all is_digit (show n) && not (leading_zero (show n))))

octet_table : passes_from is_octet 0 256 ≡ true
unfolding passes_from is_octet parse_octet parse_uint show
octet_table = refl

record Octet (n : ℕ) : Type 0 where
  octet : parse_octet (show n) ≡ some n
  number : parse_uint 63 (show n) ≡ some n
  digits : all is_digit (show n) ≡ true
  no_zero : leading_zero (show n) ≡ false

reads-eq : (o : Option ℕ) (n : ℕ) → reads o n ≡ true → o ≡ some n
reads-eq none n h = cc
reads-eq (some m) n h = ap some ((eqb_iff m n).0 h)

Octet-of : (n : ℕ) → n < 256 → Octet n
unfolding is_octet
Octet-of n h =
    let checked = passes_from-elim is_octet 0 256 octet_table (omega arith) h in
    let (octet, more) =
      and-eq-true (reads (parse_octet (show n)) n)
        (reads (parse_uint 63 (show n)) n && (all is_digit (show n) && not (leading_zero (show n))))
        checked in
    let (number, rest) =
      and-eq-true (reads (parse_uint 63 (show n)) n)
        (all is_digit (show n) && not (leading_zero (show n))) more in
    let (digits, no_zero) =
      and-eq-true (all is_digit (show n)) (not (leading_zero (show n))) rest in
    record {
      octet = reads-eq _ n octet;
      number = reads-eq _ n number;
      digits = digits;
      no_zero = ground arith;
    }

-- A run of digits holds none of the marks.
split-digits :
    (s rest : Str) → all is_digit s ≡ true → split (s ++ b'.' ∷ rest) b'.' ≡ s ∷ split rest b'.'
unfolding split
split-digits [] rest h = refl
split-digits (c ∷ s) rest h =
    let (digit, later) = and-eq-true (is_digit c) (all is_digit s) h in
    let other : eqb c b'.' ≡ false = ground arith in rw (other, split-digits s rest later)

split-last : (s : Str) → all is_digit s ≡ true → split s b'.' ≡ s ∷ []
unfolding split
split-last [] h = refl
split-last (c ∷ s) h =
    let (digit, later) = and-eq-true (is_digit c) (all is_digit s) h in
    let other : eqb c b'.' ≡ false = ground arith in rw (other, split-last s later)

first_mark-digits :
    (s rest : Str) → all is_digit s ≡ true → first_mark (s ++ b'.' ∷ rest) ≡ some b'.'
unfolding first_mark
first_mark-digits [] rest h = refl
first_mark-digits (c ∷ s) rest h =
    let (digit, later) = and-eq-true (is_digit c) (all is_digit s) h in
    ground (arith, first_mark-digits s rest later)

no_slash : (s : Str) → all is_digit s ≡ true → cut_last_slash s ≡ none
unfolding cut_last_slash
no_slash [] h = refl
no_slash (c ∷ s) h =
    let (digit, later) = and-eq-true (is_digit c) (all is_digit s) h in
    let other : eqb c b'/' ≡ false = ground arith in rw (no_slash s later, other)

cut_last_slash-append :
    (a b : Str) → cut_last_slash b ≡ none → cut_last_slash (a ++ b'/' ∷ b) ≡ some (a, b)
unfolding cut_last_slash
cut_last_slash-append [] b h = rw h
cut_last_slash-append (c ∷ a) b h = rw (cut_last_slash-append a b h)

-- The addresses of version 4.
pub record IsAddr4 (a : Addr) : Type 0 where
  pub version : a.is4 ≡ true
  pub small : a.value < 4294967296
  pub no_zone : a.zone ≡ []

rebuilt :
    (a : Addr)
    → IsAddr4 a
    → addr_from4 (a.value / 16777216) (a.value / 65536 % 256) (a.value / 256 % 256) (a.value % 256)
      ≡ a
unfolding addr_from4
rebuilt a h = ground arith

module _ (parse6 : Str → Option (ℕ × Str)) where
  -- ParseAddr reads what String prints.
  pub parse_addr-show_addr4 : (a : Addr) → IsAddr4 a → parse_addr parse6 (show_addr4 a) ≡ some a
  unfolding parse_addr show_addr4
  parse_addr-show_addr4 a h =
      let o1 = Octet-of (a.value / 16777216) (omega (arith, h.small)) in
      let o2 = Octet-of (a.value / 65536 % 256) (omega arith) in
      let o3 = Octet-of (a.value / 256 % 256) (omega arith) in
      let o4 = Octet-of (a.value % 256) (omega arith) in
      rw
        (
          first_mark-digits _ _ o1.digits,
          split-digits _ _ o1.digits,
          split-digits _ _ o2.digits,
          split-digits _ _ o3.digits,
          split-last _ o4.digits,
          o1.octet,
          o2.octet,
          o3.octet,
          o4.octet,
        )
        (ap some (rebuilt a h))

  -- ParsePrefix reads what String prints.
  pub parse_prefix-show_prefix4 :
      (p : Prefix) → IsAddr4 p.addr → p.bits ≤ 32 → parse_prefix parse6 (show_prefix4 p) ≡ some p
  unfolding parse_prefix show_prefix4
  parse_prefix-show_prefix4 p h short =
      let o = Octet-of p.bits (omega arith) in
      rw
        (
          cut_last_slash-append (show_addr4 p.addr) (show p.bits) (no_slash _ o.digits),
          parse_addr-show_addr4 p.addr h,
          o.number,
          o.no_zero,
        )
        (ground arith)

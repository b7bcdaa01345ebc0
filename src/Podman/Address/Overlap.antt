-- ===== src/Podman/Address/Overlap.antt =====
-- What `prefixesOverlap` of internal/podman/libpod_network.go decides: whether two prefixes share an
-- address.
use mathlib.Core.Bool.{or-true}
use native.Mathlib.Nat.{
  div-div-eq-div-mul, div-mul-le_self, lt-div-mul-add, div-eq_of_lt-le, two-pow-succ, add-zero,
  add-suc, pow-suc, mul-one, mul_assoc,
}
use whaleshell_driver.Base.{
  ℕ, zero, suc, ◌≡◌, ◌≤◌, ◌<◌, ◌+◌, ◌-◌, ◌*◌, ◌/◌, ◌^◌, ◌↔◌, inl, inr, refl, ap, sym, ◌∙◌, Bool,
  true, false, [], leb, eqb, arith, Bool-cases, subst, ◌&&◌,
}
use whaleshell_driver.Podman.Address.{
  Addr, Prefix, bit_len, width_of, contains, prefixes_overlap, same,
}

pow_split : (a d : ℕ) → 2 ^ (a + d) ≡ 2 ^ a * 2 ^ d
pow_split a zero = rw (add-zero a, mul-one (2 ^ a))
pow_split a (suc d) =
    rw (add-suc a d, pow-suc 2 (a + d), pow-suc 2 d, pow_split a d, mul_assoc (2 ^ a) (2 ^ d) 2)

pub pow_pos : (a : ℕ) → 0 < 2 ^ a
pow_pos zero = omega arith
pow_pos (suc a) = omega (arith, two-pow-succ a, pow_pos a)

-- The number of addresses of a prefix, and the first of them.
abbrev pub size : Prefix → ℕ
size p = 2 ^ (bit_len p.addr - p.bits)

abbrev pub first : Prefix → ℕ
first p = p.addr.value / size p * size p

abbrev pub InRange : Prefix → ℕ → Type 0
InRange p x = (first p ≤ x) × (x < first p + size p)

-- An address of one version lies in both ranges.
abbrev pub Shares : Prefix → Prefix → Type 0
Shares a b = (a.addr.is4 ≡ b.addr.is4) × (x : ℕ) × InRange a x × InRange b x

-- What every prefix is that a text can name.
pub record IsProper (p : Prefix) : Type 0 where
  pub bounded : p.bits ≤ bit_len p.addr
  pub no_zone : p.addr.zone ≡ []

in_range_of_div : (m v x : ℕ) → 0 < m → x / m ≡ v / m → (v / m * m ≤ x) × (x < v / m * m + m)
in_range_of_div m v x pos e = rw (← e) (div-mul-le_self x m, lt-div-mul-add pos)

div_of_in_range : (m v x : ℕ) → v / m * m ≤ x → x < v / m * m + m → x / m ≡ v / m
div_of_in_range m v x low high = div-eq_of_lt-le m low (grind arith)

-- Coarser blocks follow from finer ones.
coarser :
    (small d v x : ℕ) → x / 2 ^ small ≡ v / 2 ^ small → x / 2 ^ (small + d) ≡ v / 2 ^ (small + d)
coarser small d v x e = rw (
  pow_split small d,
  ← div-div-eq-div-mul x (2 ^ small) (2 ^ d),
  e,
  div-div-eq-div-mul v (2 ^ small) (2 ^ d),
)

-- Two addresses that a third agrees with, one in fewer digits, agree in these.
agree :
    (w s l va vb x : ℕ)
    → s ≤ l
    → l ≤ w
    → x / 2 ^ (w - s) ≡ va / 2 ^ (w - s)
    → x / 2 ^ (w - l) ≡ vb / 2 ^ (w - l)
    → vb / 2 ^ (w - s) ≡ va / 2 ^ (w - s)
agree w s l va vb x h k ea eb =
    let split : w - s ≡ (w - l) + (l - s) = omega arith in
    ap (λ e. vb / 2 ^ e) split
    ∙ (sym (coarser (w - l) (l - s) vb x eb) ∙ (ap (λ e. x / 2 ^ e) (sym split) ∙ ea))

-- What `Contains` reads, and what it says.
contains-intro :
    (a b : Prefix)
    → IsProper a
    → IsProper b
    → a.addr.is4 ≡ b.addr.is4
    → b.addr.value / size a ≡ a.addr.value / size a
    → contains a b.addr ≡ true
unfolding contains
contains-intro a b pa pb family e = rw (pb.no_zone, ← family, e) (same_self a.addr.is4 pa.bounded)
  where
    same_self :
        (v : Bool)
        → a.bits ≤ bit_len a.addr
        → (leb a.bits (bit_len a.addr)
            && true
            && same v v
            && eqb (a.addr.value / size a) (a.addr.value / size a))
          ≡ true
    same_self true h = ground arith
    same_self false h = ground arith

contains-elim :
    (a b : Prefix)
    → contains a b.addr ≡ true
    → (a.addr.is4 ≡ b.addr.is4) × (b.addr.value / size a ≡ a.addr.value / size a)
unfolding contains
contains-elim a b h = ground arith

contains-Shares : (a b : Prefix) → contains a b.addr ≡ true → Shares a b
contains-Shares a b h =
    let both = contains-elim a b h in
    (
      both.0,
      b.addr.value,
      in_range_of_div (size a) a.addr.value b.addr.value (pow_pos _) both.1,
      in_range_of_div (size b) b.addr.value b.addr.value (pow_pos _) refl,
    )

Shares-sym : (a b : Prefix) → Shares a b → Shares b a
Shares-sym a b (family, x, inA, inB) = (sym family, x, inB, inA)

Shares-contains :
    (a b : Prefix)
    → IsProper a
    → IsProper b
    → a.bits ≤ b.bits
    → Shares a b
    → contains a b.addr ≡ true
Shares-contains a b pa pb shorter (family, x, inA, inB) = contains-intro a b pa pb family (
    agree (bit_len a.addr) a.bits b.bits a.addr.value b.addr.value x shorter
      (subst (λ v. b.bits ≤ width_of v) (sym family) pb.bounded)
      (div_of_in_range (size a) a.addr.value x inA.0 inA.1)
      (subst (λ v. x / 2 ^ (width_of v - b.bits) ≡ b.addr.value / 2 ^ (width_of v - b.bits))
        (sym family) (div_of_in_range (size b) b.addr.value x inB.0 inB.1)))

-- Two prefixes that name networks are found to overlap exactly when some address of their common
-- version lies in the address ranges of both.
pub prefixes_overlap-iff-Shares :
    (a b : Prefix) → IsProper a → IsProper b → (prefixes_overlap a b ≡ true) ↔ Shares a b
unfolding prefixes_overlap
prefixes_overlap-iff-Shares a b pa pb = (found, shared)
  where
    found : prefixes_overlap a b ≡ true → Shares a b
    found h = elim (Bool-cases (contains a b.addr)) [
      | inl one ↦ contains-Shares a b one
      | inr other ↦ Shares-sym b a (contains-Shares b a (ground arith))
    ]

    shared : Shares a b → prefixes_overlap a b ≡ true
    shared s = elim (Bool-cases (leb a.bits b.bits)) [
      | inl le ↦ rw (Shares-contains a b pa pb (ground arith) s)
      | inr gt ↦
          rw (
            Shares-contains b a pb pa (ground arith) (Shares-sym a b s),
            or-true (contains a b.addr),
          )
    ]

-- An address that a prefix contains lies in its range.
pub contains-InRange :
    (p : Prefix) (ip : Addr) → contains p ip ≡ true → (p.addr.is4 ≡ ip.is4) × InRange p ip.value
contains-InRange p ip h =
    let both = contains-elim p (record { addr = ip; bits = 0 }) h in
    (both.0, in_range_of_div (size p) p.addr.value ip.value (pow_pos _) both.1)

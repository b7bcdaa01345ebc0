-- ===== src/Name/Shape.antt =====
-- What a sanitized name looks like, and where sanitizing it again changes it.
use whaleshell_driver.Base.{
  ℕ, suc, Str, trim_left, trim_right, leb, eqb, take, Bool, true, false, ◌&&◌, ◌||◌, [], ◌∷◌, ◌≤◌,
  ◌≡◌, ◌≢◌, refl, arith, All, All-append, All-take, length, length-take-le, IsTrue, is_nil,
  Bool-cases, inl, inr, lower, trim_space, is_space, ap, zero, ◌==◌, ==_iff, not, if◌then◌else◌,
  ◌<◌, ◌⊎◌,
}
use whaleshell_driver.Name.{sanitize_rune, sanitize_runes, trim_dashes, sanitize_name}

-- [a-z0-9-]
abbrev pub is_name_rune : ℕ → Bool
is_name_rune c = (leb b'a' c && leb c b'z') || (leb b'0' c && leb c b'9') || eqb c b'-'

abbrev pub NameRunes : Str → Type 0
NameRunes = All (λ c. IsTrue (is_name_rune c))

sanitize_rune-NameRunes : (r : ℕ) → NameRunes (sanitize_rune r)
unfolding sanitize_rune
sanitize_rune-NameRunes r = ground arith

sanitize_runes-NameRunes : (s : Str) → NameRunes (sanitize_runes s)
unfolding sanitize_runes
sanitize_runes-NameRunes [] = tt
sanitize_runes-NameRunes (r ∷ s) =
    All-append (λ c. IsTrue (is_name_rune c)) (sanitize_rune r) (sanitize_runes s)
      (sanitize_rune-NameRunes r) (sanitize_runes-NameRunes s)

trim_left-NameRunes : (p : ℕ → Bool) (s : Str) → NameRunes s → NameRunes (trim_left p s)
unfolding trim_left
trim_left-NameRunes p [] h = tt
trim_left-NameRunes p (c ∷ s) h = elim (Bool-cases (p c)) [
  | inl drops ↦ rw drops (trim_left-NameRunes p s h.1)
  | inr stops ↦ rw stops h
]

trim_right-NameRunes : (p : ℕ → Bool) (s : Str) → NameRunes s → NameRunes (trim_right p s)
unfolding trim_right
trim_right-NameRunes p [] h = tt
trim_right-NameRunes p (c ∷ s) h = elim (Bool-cases (is_nil (trim_right p s) && p c)) [
  | inl drops ↦ rw drops tt
  | inr stops ↦ rw stops (h.0, trim_right-NameRunes p s h.1)
]

-- The first character is not a dash.
abbrev pub StartsWell : Str → Type 0
StartsWell [] = Unit {0}
StartsWell (c ∷ s) = c ≢ b'-'

trim_left-StartsWell : (s : Str) → StartsWell (trim_left (λ c. eqb c b'-') s)
unfolding trim_left
trim_left-StartsWell [] = tt
trim_left-StartsWell (c ∷ s) = elim (Bool-cases (eqb c b'-')) [
  | inl drops ↦ rw drops (trim_left-StartsWell s)
  | inr stops ↦ rw stops (ground arith)
]

trim_right-StartsWell : (p : ℕ → Bool) (s : Str) → StartsWell s → StartsWell (trim_right p s)
unfolding trim_right
trim_right-StartsWell p [] h = tt
trim_right-StartsWell p (c ∷ s) h = elim (Bool-cases (is_nil (trim_right p s) && p c)) [
  | inl drops ↦ rw drops tt
  | inr stops ↦ rw stops h
]

take-StartsWell : (n : ℕ) (s : Str) → StartsWell s → StartsWell (take (suc n) s)
take-StartsWell n [] h = tt
take-StartsWell n (c ∷ s) h = h

-- For every input the sanitized name has at most 63 characters, each of them a lower-case letter,
-- a digit or a dash, and does not begin with a dash.
pub sanitize_name_shape :
    (name : Str)
    → (length (sanitize_name name) ≤ 63)
      × NameRunes (sanitize_name name)
      × StartsWell (sanitize_name name)
unfolding sanitize_name trim_dashes
sanitize_name_shape name =
    let runes = sanitize_runes (lower (trim_space name)) in
    let left = trim_left (λ c. eqb c b'-') runes in
    (
      length-take-le 63 _,
      All-take _ 63 _ (
          trim_right-NameRunes _ left
            (trim_left-NameRunes _ runes (sanitize_runes-NameRunes (lower (trim_space name))))),
      take-StartsWell 62 _ (trim_right-StartsWell _ left (trim_left-StartsWell runes)),
    )

lower_name : (s : Str) → NameRunes s → lower s ≡ s
unfolding lower
lower_name [] h = refl
lower_name (c ∷ s) h = ground (arith, h.0, lower_name s h.1)

sanitize_runes_name : (s : Str) → NameRunes s → sanitize_runes s ≡ s
unfolding sanitize_runes sanitize_rune
sanitize_runes_name [] h = refl
sanitize_runes_name (c ∷ s) h = ground (arith, h.0, sanitize_runes_name s h.1)

name_not_space : (c : ℕ) → is_name_rune c ≡ true → is_space c ≡ false
unfolding is_space
name_not_space c h = ground arith

trim_left_fails : (p : ℕ → Bool) (c : ℕ) (s : Str) → p c ≡ false → trim_left p (c ∷ s) ≡ c ∷ s
unfolding trim_left
trim_left_fails p c s h = rw h

trim_left_name : (s : Str) → NameRunes s → trim_left is_space s ≡ s
trim_left_name [] h = unfold trim_left in refl
trim_left_name (c ∷ s) h = trim_left_fails is_space c s (name_not_space c h.0)

trim_right_name : (s : Str) → NameRunes s → trim_right is_space s ≡ s
unfolding trim_right
trim_right_name [] h = refl
trim_right_name (c ∷ s) h = ground (arith, name_not_space c h.0, trim_right_name s h.1)

trim_left_dash : (s : Str) → StartsWell s → trim_left (λ c. eqb c b'-') s ≡ s
trim_left_dash [] h = unfold trim_left in refl
trim_left_dash (c ∷ s) h = trim_left_fails _ c s (ground arith)

length-trim_right-le : (p : ℕ → Bool) (s : Str) → length (trim_right p s) ≤ length s
unfolding trim_right
length-trim_right-le p [] = omega arith
length-trim_right-le p (c ∷ s) = ground (arith, length-trim_right-le p s)

take_all : (n : ℕ) (s : Str) → length s ≤ n → take n s ≡ s
take_all zero [] h = refl
take_all zero (c ∷ s) h = elim h [ ]
take_all (suc n) [] h = refl
take_all (suc n) (c ∷ s) h = ap (λ t. c ∷ t) (take_all n s (omega arith))

sanitize_shaped :
    (s : Str)
    → length s ≤ 63
    → NameRunes s
    → StartsWell s
    → sanitize_name s ≡ trim_right (λ c. eqb c b'-') s
unfolding sanitize_name trim_space trim_dashes
sanitize_shaped s short runes starts =
    rw
      (
        trim_left_name s runes,
        trim_right_name s runes,
        lower_name s runes,
        sanitize_runes_name s runes,
        trim_left_dash s starts,
      )
      (take_all 63 _ (omega (arith, length-trim_right-le (λ c. eqb c b'-') s)))

abbrev pub ends_in_dash : Str → Bool
ends_in_dash [] = false
ends_in_dash (c ∷ []) = eqb c b'-'
ends_in_dash (c ∷ d ∷ s) = ends_in_dash (d ∷ s)

abbrev trimmed : Str → Str
trimmed = trim_right (λ c. eqb c b'-')

trimmed_kept : (s : Str) → ends_in_dash s ≡ false → trimmed s ≡ s
unfolding trim_right
trimmed_kept [] h = refl
trimmed_kept (c ∷ []) h = ground arith
trimmed_kept (c ∷ d ∷ s) h = rw (trimmed_kept (d ∷ s) h) refl

trimmed_shorter : (s : Str) → ends_in_dash s ≡ true → length (trimmed s) < length s
unfolding trim_right
trimmed_shorter [] h = absurd (cc h)
trimmed_shorter (c ∷ []) h = ground arith
trimmed_shorter (c ∷ d ∷ s) h = ground (arith, trimmed_shorter (d ∷ s) h)

ends_in_dash-trimmed : (s : Str) → ends_in_dash (trimmed s) ≡ false
unfolding trim_right
ends_in_dash-trimmed [] = refl
ends_in_dash-trimmed (c ∷ s) = after (trimmed s) (ends_in_dash-trimmed s)
  where
    after :
        (t : Str)
        → ends_in_dash t ≡ false
        → ends_in_dash (if is_nil t && eqb c b'-' then [] else c ∷ t) ≡ false
    after [] h = ground arith
    after (x ∷ t) h = h

length-take_short : (n : ℕ) (s : Str) → n ≤ length s → length (take n s) ≡ n
length-take_short zero s h = refl
length-take_short (suc n) [] h = elim h [ ]
length-take_short (suc n) (c ∷ s) h = ap suc (length-take_short n s (omega arith))

cut_dash :
    (t : Str)
    → (ends_in_dash (take 63 (trimmed t)) && not (eqb (length (take 63 (trimmed t))) 63)) ≡ false
cut_dash t = elim (Bool-cases (leb 63 (length (trimmed t)))) [
  | inl long ↦ rw (length-take_short 63 (trimmed t) (ground arith)) (ground arith)
  | inr short ↦ rw (take_all 63 (trimmed t) (ground arith), ends_in_dash-trimmed t) refl
]

trimmed-equal : (s : Str) → (trimmed s == s) ≡ not (ends_in_dash s)
trimmed-equal s = elim (Bool-cases (ends_in_dash s)) [
  | inl dash ↦ rw dash (differs dash (Bool-cases (trimmed s == s)))
  | inr bare ↦ rw (bare, trimmed_kept s bare) ((==_iff s s).1 refl)
]
  where
    differs :
        ends_in_dash s ≡ true
        → ((trimmed s == s) ≡ true) ⊎ ((trimmed s == s) ≡ false)
        → (trimmed s == s) ≡ false
    differs dash (inl same) =
        absurd (omega (arith, trimmed_shorter s dash, ap length ((==_iff (trimmed s) s).0 same)))
    differs dash (inr apart) = apart

-- Sanitizing a sanitized name drops the dashes at its end and nothing else. So the two differ exactly
-- where the sanitized name ends in a dash, which happens only where it was cut at 63 characters.
pub sanitize_name_again :
    (name : Str)
    → let s = sanitize_name name in
      (sanitize_name s ≡ trim_right (λ c. eqb c b'-') s)
      × ((sanitize_name s == s) ≡ not (ends_in_dash s))
      × ((ends_in_dash s && not (eqb (length s) 63)) ≡ false)
unfolding sanitize_name trim_dashes
sanitize_name_again name =
    let (short, runes, starts) = sanitize_name_shape name in
    let again = sanitize_shaped (sanitize_name name) short runes starts in
    (
      again,
      rw again (trimmed-equal (sanitize_name name)),
      cut_dash (trim_left (λ c. eqb c b'-') (sanitize_runes (lower (trim_space name)))),
    )

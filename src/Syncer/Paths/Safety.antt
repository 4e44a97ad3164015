-- ===== src/Syncer/Paths/Safety.antt =====
-- internal/syncer/paths.go: what safeName makes can stand as one component of a path.
use gpb.Common.{
  ℕ, Bool, true, false, ◌||◌, not, ◌≡◌, inl, inr, refl, List, [], ◌∷◌, nat_eq, All, Bool-cases,
}
use gpb.Syncer.Paths.{
  is_control, is_reserved, mapped, in_cutset, trim_left, before_cut, trim_right, is_dots, safe_name,
}

-- Neither a control character nor one that a path or a shell reads.
abbrev pub is_plain : ℕ → Bool
is_plain r = not (is_control r || is_reserved r)

abbrev pub last_rune : ℕ → List ℕ → ℕ
last_rune r [] = r
last_rune r (next ∷ rest) = last_rune next rest

-- Empty, or with something other than a space or a dot at both ends.
abbrev pub IsTrimmed : List ℕ → Type 0
IsTrimmed [] = Unit
IsTrimmed (r ∷ rest) = (in_cutset r ≡ false) × (in_cutset (last_rune r rest) ≡ false)

abbrev EndsPlainly : List ℕ → Type 0
EndsPlainly [] = Unit
EndsPlainly (r ∷ rest) = in_cutset (last_rune r rest) ≡ false

abbrev BeginsPlainly : List ℕ → Type 0
BeginsPlainly [] = Unit
BeginsPlainly (r ∷ rest) = in_cutset r ≡ false

plain : (r : ℕ) → is_control r ≡ false → is_reserved r ≡ false → is_plain r ≡ true
plain r h k = rw (h, k) refl

All-mapped : (name : List ℕ) → All (λ r. is_plain r ≡ true) (mapped name)
unfolding mapped
All-mapped [] = tt
All-mapped (r ∷ name) = elim (Bool-cases (is_control r)) [
  | inl e ↦ rw e (All-mapped name)
  | inr e ↦ elim (Bool-cases (is_reserved r)) [
    | inl i ↦ rw (e, i) (refl, All-mapped name)
    | inr i ↦ rw (e, i) (plain r e i, All-mapped name)
  ]
]

module _ {κ} (P : ℕ → Type κ) where
  All-trim_left : (name : List ℕ) → All P name → All P (trim_left name)
  unfolding trim_left
  All-trim_left [] h = tt
  All-trim_left (r ∷ name) h = elim (Bool-cases (in_cutset r)) [
    | inl e ↦ rw e (All-trim_left name h.1)
    | inr e ↦ rw e h
  ]

  All-before_cut : (r : ℕ) (rest : List ℕ) → P r → All P rest → All P (before_cut r rest)
  All-before_cut r [] p h = elim (Bool-cases (in_cutset r)) [
    | inl e ↦ rw e tt
    | inr e ↦ rw e (p, tt)
  ]
  All-before_cut r (next ∷ rest) p h = (p, h)

  All-trim_right : (name : List ℕ) → All P name → All P (trim_right name)
  unfolding trim_right
  All-trim_right [] h = tt
  All-trim_right (r ∷ name) h = All-before_cut r (trim_right name) h.0 (All-trim_right name h.1)

trim_left-begins : (name : List ℕ) → BeginsPlainly (trim_left name)
unfolding trim_left
trim_left-begins [] = tt
trim_left-begins (r ∷ name) = elim (Bool-cases (in_cutset r)) [
  | inl e ↦ rw e (trim_left-begins name)
  | inr e ↦ rw e e
]

before_cut-ends : (r : ℕ) (rest : List ℕ) → EndsPlainly rest → EndsPlainly (before_cut r rest)
before_cut-ends r [] h = elim (Bool-cases (in_cutset r)) [ inl e ↦ rw e tt | inr e ↦ rw e e ]
before_cut-ends r (next ∷ rest) h = h

trim_right-ends : (name : List ℕ) → EndsPlainly (trim_right name)
unfolding trim_right
trim_right-ends [] = tt
trim_right-ends (r ∷ name) = before_cut-ends r (trim_right name) (trim_right-ends name)

before_cut-begins :
    (r : ℕ) (rest : List ℕ) → in_cutset r ≡ false → BeginsPlainly (before_cut r rest)
before_cut-begins r [] h = rw h h
before_cut-begins r (next ∷ rest) h = h

trim_right-begins : (name : List ℕ) → BeginsPlainly name → BeginsPlainly (trim_right name)
unfolding trim_right
trim_right-begins [] h = tt
trim_right-begins (r ∷ name) h = before_cut-begins r (trim_right name) h

both_ends : (name : List ℕ) → BeginsPlainly name → EndsPlainly name → IsTrimmed name
both_ends [] b e = tt
both_ends (r ∷ rest) b e = (b, e)

-- Whatever the remote name, safeName gives no control character, none of / \ : * ? " < > |, and neither a
-- space nor a dot at an end; so it is neither "." nor "..".
pub safe_name-IsTrimmed :
    (name : List ℕ)
    → All (λ r. not (is_control r || is_reserved r) ≡ true) (safe_name name)
      × IsTrimmed (safe_name name)
      × (is_dots (safe_name name) ≡ false)
unfolding safe_name
safe_name-IsTrimmed name =
    let trimmed = trim_right (trim_left (mapped name)) in
    elim (Bool-cases (is_dots trimmed)) [
      | inl e ↦ rw e (tt, tt, refl)
      | inr e ↦ rw e (
        All-trim_right (λ r. is_plain r ≡ true) (trim_left (mapped name))
            (All-trim_left (λ r. is_plain r ≡ true) (mapped name) (All-mapped name)),
        both_ends trimmed
            (trim_right-begins (trim_left (mapped name)) (trim_left-begins (mapped name)))
            (trim_right-ends (trim_left (mapped name))),
        e,
      )
    ]

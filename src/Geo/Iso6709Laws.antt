-- ===== src/Geo/Iso6709Laws.antt =====
-- internal/geo/isobmff.go: what signedParts splits a text into.
use gpb.Geo.Iso6709.{is_sign, parts_from, signed_parts}
use gpb.Common.{
  ℕ, Bool, true, false, ◌≡◌, refl, ap, ◌∙◌, some, List, [], ◌∷◌, ◌++◌, if◌then◌else◌, All,
  All-append, Bool-cases, inl, inr,
}
use mathlib.Core.List.{append_assoc}

abbrev pub joined : List (List ℕ) → List ℕ
joined [] = []
joined (part ∷ parts) = part ++ joined parts

-- The text without what precedes its first sign.
abbrev pub from_first_sign : List ℕ → List ℕ
from_first_sign [] = []
from_first_sign (c ∷ text) = if is_sign c then c ∷ text else from_first_sign text

-- A sign, and then none.
abbrev pub IsSigned : List ℕ → Type 0
IsSigned [] = ⊥
IsSigned (c ∷ rest) = (is_sign c ≡ true) × All (λ d. is_sign d ≡ false) rest

joined-if :
    (c : Bool) (parts others : List (List ℕ))
    → joined (if c then parts else others) ≡ (if c then joined parts else joined others)
joined-if true parts others = refl
joined-if false parts others = refl

joined-open : (part text : List ℕ) → joined (parts_from (some part) text) ≡ part ++ text
unfolding parts_from
joined-open part [] = refl
joined-open part (c ∷ text) = elim (Bool-cases (is_sign c)) [
  | inl e ↦ rw e (ap (λ rest. part ++ rest) (joined-open (c ∷ []) text))
  | inr e ↦ rw e (joined-open (part ++ c ∷ []) text ∙ append_assoc part (c ∷ []) text)
]

-- The parts of a text are the text from its first sign on, in order and without a gap.
joined-signed_parts : (text : List ℕ) → joined (signed_parts text) ≡ from_first_sign text
unfolding signed_parts parts_from
joined-signed_parts [] = refl
joined-signed_parts (c ∷ text) = elim (Bool-cases (is_sign c)) [
  | inl e ↦ rw e (joined-open (c ∷ []) text)
  | inr e ↦ rw e (joined-signed_parts text)
]

IsSigned-append :
    (part : List ℕ) (c : ℕ) → IsSigned part → is_sign c ≡ false → IsSigned (part ++ c ∷ [])
IsSigned-append [] c h e = elim h [ ]
IsSigned-append (d ∷ part) c h e =
    (h.0, All-append (λ d. is_sign d ≡ false) part (c ∷ []) h.1 (e, tt))

parts_open-IsSigned :
    (part text : List ℕ) → IsSigned part → All IsSigned (parts_from (some part) text)
unfolding parts_from
parts_open-IsSigned part [] h = (h, tt)
parts_open-IsSigned part (c ∷ text) h = elim (Bool-cases (is_sign c)) [
  | inl e ↦ rw e (h, parts_open-IsSigned (c ∷ []) text (e, tt))
  | inr e ↦ rw e (parts_open-IsSigned (part ++ c ∷ []) text (IsSigned-append part c h e))
]

signed_parts-IsSigned : (text : List ℕ) → All IsSigned (signed_parts text)
unfolding signed_parts parts_from
signed_parts-IsSigned [] = tt
signed_parts-IsSigned (c ∷ text) = elim (Bool-cases (is_sign c)) [
  | inl e ↦ rw e (parts_open-IsSigned (c ∷ []) text (e, tt))
  | inr e ↦ rw e (signed_parts-IsSigned text)
]

-- signedParts cuts a text into the parts that begin with a sign and have no other, which are in order the
-- text from its first sign on.
pub signed_parts_lem :
    (text : List ℕ)
    → (joined (signed_parts text) ≡ from_first_sign text) × All IsSigned (signed_parts text)
signed_parts_lem text = (joined-signed_parts text, signed_parts-IsSigned text)

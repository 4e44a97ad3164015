-- ===== src/Gphotos/DriftPrivacy.antt =====
-- internal/gphotos/drift.go: a drift error, and a cursor, of a payload whose texts and numbers are replaced.
use Prim.Native.String.{len}
use gpb.Gphotos.Json.{
  Json, null, string, number, boolean, array, object, Elements, nil, cons, Conversions, element,
}
use gpb.Gphotos.Tree.{
  Tree, value_at, at, is_present, present, text_of, text, Drift, Decoded, decoded, drifted, ◌>>=◌,
  describe, driftf, token_of, cursor,
}
use gpb.Gphotos.Items.{nonempty, decode_each}
use gpb.Common.{
  ℕ, suc, ◌≡◌, ◌∙◌, ap, ◌⊎◌, inl, inr, refl, Option, none, some, String, ◌==◌, string_eq,
  if◌then◌else◌, arith, Bool-cases,
}
use gpb.Gphotos.Redaction.{
  redact, redact_elements, redact_tree, count-redact, count_members-redact, value_at-redact,
  at-redact, sample_shape-redact,
}

-- The error of a decoder, where it has one.
abbrev pub error_of {ℓ} : {A : Type ℓ} → Decoded A → Option Drift
error_of (decoded a) = none
error_of (drifted e) = some e

pub error_of-bind {ℓ κ} :
    {A : Type ℓ} {B : Type κ} (r s : Decoded A) (f g : A → Decoded B)
    → error_of r ≡ error_of s
    → ((a b : A) → error_of (f a) ≡ error_of (g b))
    → error_of (r >>= f) ≡ error_of (s >>= g)
error_of-bind (decoded a) (decoded b) f g h k = k a b
error_of-bind (decoded a) (drifted e) f g h k = ground (arith, h)
error_of-bind (drifted e) (decoded b) f g h k = ground (arith, h)
error_of-bind (drifted e) (drifted i) f g h k = h

module _ (f : String → String) (g : ℕ → ℕ) where
  module _ (go : Conversions) (same_length : (s : String) → len (f s) ≡ len s)
      (same_emptiness : (s : String) → (f s == "") ≡ (s == "")) where
    describe-redact : (value : Json) → describe go (redact f g value) ≡ describe go value
    unfolding describe redact
    describe-redact null = refl
    describe-redact (string value) = rw (same_length value) refl
    describe-redact (number value) = refl
    describe-redact (boolean value) = refl
    describe-redact (array elements) = rw (count-redact f g elements) refl
    describe-redact (object members) = rw (count_members-redact f g members) refl

    pub driftf-redact {ℓ} :
        {A : Type ℓ} (t : Tree) (want : String)
        → driftf go {A = A} (redact_tree f g t) want ≡ driftf go t want
    unfolding driftf
    driftf-redact t want = rw (describe-redact t.value, sample_shape-redact f g go 1 t.root) refl

    -- A text is required of both, and both have one or neither.
    pub nonempty-redact :
        (value : Json)
        → ((nonempty (text_of (redact f g value)) ≡ none) × (nonempty (text_of value) ≡ none))
          ⊎ ((s : String) × (s' : String) × (nonempty (text_of (redact f g value)) ≡ some s')
              × (nonempty (text_of value) ≡ some s))
    unfolding redact
    nonempty-redact null = inl (refl, refl)
    nonempty-redact (string value) = elim (Bool-cases (value == "")) [
      | inl e ↦ inl (rw (same_emptiness value, e) refl, rw e refl)
      | inr e ↦ inr (value, f value, rw (same_emptiness value, e) refl, rw e refl)
    ]
    nonempty-redact (number value) = inl (refl, refl)
    nonempty-redact (boolean value) = inl (refl, refl)
    nonempty-redact (array elements) = inl (refl, refl)
    nonempty-redact (object members) = inl (refl, refl)

    token-redact :
        (t : Tree) (value : Json)
        → error_of (
            if is_present (redact f g value)
            then token_of go (redact_tree f g t) (text_of (redact f g value))
            else decoded "")
          ≡ error_of (if is_present value then token_of go t (text_of value) else decoded "")
    unfolding redact
    token-redact t null = refl
    token-redact t (string value) = refl
    token-redact t (number value) = ap error_of (driftf-redact t "a page cursor")
    token-redact t (boolean value) = ap error_of (driftf-redact t "a page cursor")
    token-redact t (array elements) = ap error_of (driftf-redact t "a page cursor")
    token-redact t (object members) = ap error_of (driftf-redact t "a page cursor")

    cursor-redact : (t : Tree) → error_of (cursor go (redact_tree f g t)) ≡ error_of (cursor go t)
    unfolding cursor present text
    cursor-redact t = token-redact t t.value

    pub cursor_at-redact :
        (t : Tree) (index : ℕ)
        → error_of (cursor go (at (redact_tree f g t) index)) ≡ error_of (cursor go (at t index))
    cursor_at-redact t index =
        ap (λ u. error_of (cursor go u)) (at-redact f g t index) ∙ cursor-redact (at t index)

    pub decode_each-redact {ℓ} :
        {A : Type ℓ} (decode : Tree → Decoded A)
        → ((t : Tree) → error_of (decode (redact_tree f g t)) ≡ error_of (decode t))
        → (node : Tree) (index : ℕ) (elements : Elements)
        → error_of (decode_each decode (redact_tree f g node) index (redact_elements f g elements))
          ≡ error_of (decode_each decode node index elements)
    unfolding decode_each redact
    decode_each-redact decode h node index nil = refl
    decode_each-redact decode h node index (cons element elements) =
        error_of-bind (decode (at (redact_tree f g node) index)) (decode (at node index)) _ _
          (ap (λ u. error_of (decode u)) (at-redact f g node index) ∙ h (at node index))
          (λ first other.
            error_of-bind _ _ _ _ (decode_each-redact decode h node (suc index) elements)
              (λ rest others. refl))

    pub driftf_at-redact {ℓ} :
        {A : Type ℓ} (t : Tree) (index : ℕ) (want : String)
        → driftf go {A = A} (at (redact_tree f g t) index) want ≡ driftf go (at t index) want
    driftf_at-redact t index want =
        ap (λ u. driftf go u want) (at-redact f g t index) ∙ driftf-redact (at t index) want

    text_at-redact :
        (t : Tree) (index : ℕ)
        → text (at (redact_tree f g t) index) ≡ text_of (redact f g (value_at index t.value))
    unfolding at text
    text_at-redact t index = ap text_of (value_at-redact f g index t.value)

-- ===== src/Common/Texts.antt =====
-- The order of texts: SQLite's BINARY collation and Go's comparison of strings.
use Prim.Native.Nat.{ℕ, Ordering, compare as compare_ℕ}
use Prim.Native.Char.{Char, code}
use Prim.Native.String.{String, compare as compare_text, then}
use Prim.Native.String.compare
use mathlib.Core.Path.{◌≡◌, refl, sym, ap, ◌∙◌}
use native.Mathlib.Omega.{arith}
use gpb.Common.Orders.{reversed}

reversed-compare_ℕ : (m n : ℕ) → compare_ℕ n m ≡ reversed (compare_ℕ m n)
reversed-compare_ℕ m n = ground arith

reversed-then : (a b : Ordering) → then (reversed a) (reversed b) ≡ reversed (then a b)
reversed-then Ordering.lt b = refl
reversed-then Ordering.eq b = refl
reversed-then Ordering.gt b = refl

cons-cons :
    (c d : Char) (s t : String)
    → compare_text (String.◌∷◌ c s) (String.◌∷◌ d t)
      ≡ then (compare_ℕ (code c) (code d)) (compare_text s t)
cons-cons c d s t = λ i. compare.cons-cons c d s t i

pub reversed-compare : (s t : String) → compare_text t s ≡ reversed (compare_text s t)
reversed-compare String.[] String.[] = refl
reversed-compare String.[] (String.◌∷◌ d t) =
    (λ i. compare.cons-nil d t i) ∙ ap reversed (sym (λ i. compare.nil-cons d t i))
reversed-compare (String.◌∷◌ c s) String.[] =
    (λ i. compare.nil-cons c s i) ∙ ap reversed (sym (λ i. compare.cons-nil c s i))
reversed-compare (String.◌∷◌ c s) (String.◌∷◌ d t) =
    cons-cons d c t s
    ∙ rw (reversed-compare_ℕ (code c) (code d), reversed-compare s t)
        (reversed-then (compare_ℕ (code c) (code d)) (compare_text s t))
    ∙ ap reversed (sym (cons-cons c d s t))

-- ===== src/Common/Orders.antt =====
-- Comparisons, and a stable sort by one.
use Prim.Native.Nat.{ℕ, Ordering, compare}
use native.Mathlib.Omega.{arith}
use gpb.Common.Lists.{All}
use mathlib.Core.Path.{◌≡◌, refl}
use mathlib.Core.Bool.{Bool, true, false, ◌||◌}
use mathlib.Core.Logic.{inl, inr}
use mathlib.Core.Option.{Option, none, some}
use mathlib.Core.List.{List, [], ◌∷◌, Perm}
use mathlib.Core.List.Perm
use gpb.Common.Tables.{exists}
use gpb.Common.Tests.{if◌then◌else◌, Bool-cases}

-- Ordered by the first, and by the second where the first ties.
abbrev pub then_by : Ordering → Ordering → Ordering
then_by Ordering.eq b = b
then_by Ordering.lt b = Ordering.lt
then_by Ordering.gt b = Ordering.gt

abbrev pub reversed : Ordering → Ordering
reversed Ordering.lt = Ordering.gt
reversed Ordering.eq = Ordering.eq
reversed Ordering.gt = Ordering.lt

abbrev pub not_after : Ordering → Bool
not_after Ordering.gt = false
not_after Ordering.lt = true
not_after Ordering.eq = true

abbrev pub compare_bool : Bool → Bool → Ordering
compare_bool false true = Ordering.lt
compare_bool true false = Ordering.gt
compare_bool false false = Ordering.eq
compare_bool true true = Ordering.eq

-- NULL sorts before every value.
abbrev pub compare_option {ℓ} : {A : Type ℓ} → (A → A → Ordering) → Option A → Option A → Ordering
compare_option c none none = Ordering.eq
compare_option c none (some b) = Ordering.lt
compare_option c (some a) none = Ordering.gt
compare_option c (some a) (some b) = c a b

module _ {ℓ} {A : Type ℓ} (c : A → A → Ordering) where
  pub insert_by : A → List A → List A
  insert_by a [] = a ∷ []
  insert_by a (x ∷ xs) = if not_after (c a x) then a ∷ x ∷ xs else x ∷ insert_by a xs

  -- ORDER BY, and Go's stable sort.
  unfoldable pub sort_by : List A → List A
  unfolding insert_by
  sort_by [] = []
  sort_by (x ∷ xs) = insert_by x (sort_by xs)

  insert_by-perm : (a : A) (xs : List A) → Perm (insert_by a xs) (a ∷ xs)
  unfolding insert_by
  insert_by-perm a [] = Perm.refl (a ∷ [])
  insert_by-perm a (x ∷ xs) = elim (Bool-cases (not_after (c a x))) [
    | inl e ↦ rw e (Perm.refl (a ∷ x ∷ xs))
    | inr e ↦ rw e (Perm.trans (Perm.cons x (insert_by-perm a xs)) (Perm.swap a x xs))
  ]

  pub sort_by-perm : (xs : List A) → Perm (sort_by xs) xs
  unfolding sort_by
  sort_by-perm [] = Perm.refl []
  sort_by-perm (x ∷ xs) = Perm.trans (insert_by-perm x (sort_by xs)) (Perm.cons x (sort_by-perm xs))

  -- Each row is not after the next.
  abbrev pub IsOrdered : List A → Type 0
  IsOrdered [] = Unit
  IsOrdered (x ∷ []) = Unit
  IsOrdered (x ∷ y ∷ xs) = (not_after (c x y) ≡ true) × IsOrdered (y ∷ xs)

  insert_by_below :
      (a x : A) (xs : List A)
      → ((a b : A) → not_after (c a b) ≡ false → not_after (c b a) ≡ true)
      → not_after (c a x) ≡ false
      → IsOrdered (x ∷ xs)
      → IsOrdered (x ∷ insert_by a xs)
  unfolding insert_by
  insert_by_below a x [] total e h = (total a x e, tt)
  insert_by_below a x (y ∷ xs) total e h = elim (Bool-cases (not_after (c a y))) [
    | inl f ↦ rw f (total a x e, (f, h.1))
    | inr f ↦ rw f (h.0, insert_by_below a y xs total f h.1)
  ]

  insert_by-IsOrdered :
      (a : A) (xs : List A)
      → ((a b : A) → not_after (c a b) ≡ false → not_after (c b a) ≡ true)
      → IsOrdered xs
      → IsOrdered (insert_by a xs)
  unfolding insert_by
  insert_by-IsOrdered a [] total h = tt
  insert_by-IsOrdered a (x ∷ xs) total h = elim (Bool-cases (not_after (c a x))) [
    | inl e ↦ rw e (e, h)
    | inr e ↦ rw e (insert_by_below a x xs total e h)
  ]

  pub sort_by-IsOrdered :
      (xs : List A)
      → ((a b : A) → not_after (c a b) ≡ false → not_after (c b a) ≡ true)
      → IsOrdered (sort_by xs)
  unfolding sort_by
  sort_by-IsOrdered [] total = tt
  sort_by-IsOrdered (x ∷ xs) total =
      insert_by-IsOrdered x (sort_by xs) total (sort_by-IsOrdered xs total)

  exists-insert_by :
      (p : A → Bool) (a : A) (xs : List A) → exists p (insert_by a xs) ≡ (p a || exists p xs)
  unfolding insert_by
  exists-insert_by p a [] = refl
  exists-insert_by p a (x ∷ xs) = elim (Bool-cases (not_after (c a x))) [
    | inl e ↦ rw e refl
    | inr e ↦ rw e (ground (arith, exists-insert_by p a xs))
  ]

  pub exists-sort_by : (p : A → Bool) (xs : List A) → exists p (sort_by xs) ≡ exists p xs
  unfolding sort_by
  exists-sort_by p [] = refl
  exists-sort_by p (x ∷ xs) = ground (arith, exists-insert_by p x (sort_by xs), exists-sort_by p xs)

  All-insert_by {κ} :
      (P : A → Type κ) (a : A) (xs : List A) → P a → All P xs → All P (insert_by a xs)
  unfolding insert_by
  All-insert_by P a [] h hs = (h, tt)
  All-insert_by P a (x ∷ xs) h hs = elim (Bool-cases (not_after (c a x))) [
    | inl e ↦ rw e (h, hs)
    | inr e ↦ rw e (hs.0, All-insert_by P a xs h hs.1)
  ]

  pub All-sort_by {κ} : (P : A → Type κ) (xs : List A) → All P xs → All P (sort_by xs)
  unfolding sort_by
  All-sort_by P [] hs = tt
  All-sort_by P (x ∷ xs) hs = All-insert_by P x (sort_by xs) hs.0 (All-sort_by P xs hs.1)

pub not_after-reversed : (o : Ordering) → not_after o ≡ false → not_after (reversed o) ≡ true
not_after-reversed o h = ground arith

pub reversed-then_by : (a b : Ordering) → then_by (reversed a) (reversed b) ≡ reversed (then_by a b)
reversed-then_by a b = ground arith

pub reversed-compare_bool : (a b : Bool) → compare_bool b a ≡ reversed (compare_bool a b)
reversed-compare_bool a b = ground arith

pub reversed-compare_option :
    (a b : Option ℕ) → compare_option compare b a ≡ reversed (compare_option compare a b)
reversed-compare_option a b = ground arith

pub sort_by-IsOrdered_comparison {ℓ} :
    {A : Type ℓ} (c : A → A → Ordering) (xs : List A)
    → ((a b : A) → c b a ≡ reversed (c a b))
    → IsOrdered c (sort_by c xs)
sort_by-IsOrdered_comparison c xs h =
    sort_by-IsOrdered c xs (λ a b e. rw (h a b) (not_after-reversed (c a b) e))

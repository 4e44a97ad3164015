-- ===== src/Common/Tables.antt =====
-- The statements of SQL over a table held as the list of its rows, and NULL as `none`.
use Prim.Native.Nat.{ℕ, zero, suc, ◌+◌, Ordering}
use Prim.Native.String.{String, compare}
use mathlib.Core.Path.{◌≡◌, refl, ap}
use mathlib.Core.Logic.{◌↔◌}
use mathlib.Core.Bool.{Bool, true, false, ◌||◌}
use mathlib.Core.Option.{Option, none, some}
use mathlib.Core.List.{List, [], ◌∷◌, ◌++◌}
use native.Mathlib.Omega.{arith}
use gpb.Common.Tests.{Eq, ◌==◌, if◌then◌else◌}
use gpb.Common.Lists.{take, drop}

module _ {ℓ} {A : Type ℓ} where
  -- UPDATE ... SET f WHERE p
  abbrev pub update : (A → Bool) → (A → A) → List A → List A
  update p f [] = []
  update p f (x ∷ xs) = (if p x then f x else x) ∷ update p f xs

  -- DELETE ... WHERE p
  abbrev pub delete : (A → Bool) → List A → List A
  delete p [] = []
  delete p (x ∷ xs) = if p x then delete p xs else x ∷ delete p xs

  -- SELECT ... WHERE p
  abbrev pub select : (A → Bool) → List A → List A
  select p [] = []
  select p (x ∷ xs) = if p x then x ∷ select p xs else select p xs

  -- EXISTS (SELECT ... WHERE p)
  abbrev pub exists : (A → Bool) → List A → Bool
  exists p [] = false
  exists p (x ∷ xs) = p x || exists p xs

  -- SELECT COUNT(*) ... WHERE p
  abbrev pub count : (A → Bool) → List A → ℕ
  count p [] = 0
  count p (x ∷ xs) = (if p x then 1 else 0) + count p xs

  -- The first row that the query gives.
  abbrev pub find : (A → Bool) → List A → Option A
  find p [] = none
  find p (x ∷ xs) = if p x then some x else find p xs

-- `x IN (...)`, and a set of keys as the list of its members.
abbrev pub contains {ℓ} : {A : Type ℓ} ⦃e : Eq A⦄ → A → List A → Bool
contains a [] = false
contains a (x ∷ xs) = x == a || contains a xs

-- `=` in SQL: NULL is equal to nothing.
abbrev pub sql_eq {ℓ} : {A : Type ℓ} ⦃e : Eq A⦄ → Option A → Option A → Bool
sql_eq (some a) (some b) = a == b
sql_eq none _ = false
sql_eq (some a) none = false

-- `IS` in SQL: NULL is itself.
abbrev pub sql_is {ℓ} : {A : Type ℓ} ⦃e : Eq A⦄ → Option A → Option A → Bool
sql_is none none = true
sql_is none (some b) = false
sql_is (some a) none = false
sql_is (some a) (some b) = a == b

abbrev pub is_some {ℓ} : {A : Type ℓ} → Option A → Bool
is_some none = false
is_some (some _) = true

abbrev pub get_or {ℓ} : {A : Type ℓ} → Option A → A → A
get_or none d = d
get_or (some a) d = a

pub sql_is_iff {ℓ} : {A : Type ℓ} ⦃e : Eq A⦄ (a b : Option A) → (sql_is a b ≡ true) ↔ (a ≡ b)
sql_is_iff none none = ((λ _. refl), (λ _. refl))
sql_is_iff none (some b) = ((λ h. cc), (λ h. cc))
sql_is_iff (some a) none = ((λ h. cc), (λ h. cc))
sql_is_iff ⦃e⦄ (some a) (some b) =
    ((λ h. ap some ((e.same_iff a b).0 h)), (λ h. ground (arith, e.same_iff a b)))

-- An UPDATE whose SET reads the table: the rows are rewritten one after another, and each sees
-- those rewritten before it.
abbrev pub update_reading {ℓ} :
    {A : Type ℓ} → (A → Bool) → (List A → A → A) → List A → List A → List A
update_reading p f before [] = []
update_reading p f before (x ∷ xs) =
    let x' = if p x then f (before ++ x ∷ xs) x else x in
    x' ∷ update_reading p f (before ++ x' ∷ []) xs

-- MIN over the values that a query gives, NULL where it gives none.
abbrev pub minimum : List String → Option String
minimum [] = none
minimum (x ∷ xs) = elim (minimum xs) [
  | none ↦ some x
  | some y ↦ elim (compare x y) [ Ordering.gt ↦ some y | _ ↦ some x ]
]

-- The loop of slices.Chunk: rounds of at most `size` members, `rounds` of them at most.
abbrev pub chunk {ℓ} : {A : Type ℓ} → ℕ → ℕ → List A → List (List A)
chunk zero size xs = []
chunk (suc rounds) size [] = []
chunk (suc rounds) size (x ∷ xs) = take size (x ∷ xs) ∷ chunk rounds size (drop size (x ∷ xs))

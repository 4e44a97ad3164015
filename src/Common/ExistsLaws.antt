-- ===== src/Common/ExistsLaws.antt =====
-- How EXISTS reads a table that a statement has rewritten, and lists in chunks.
use Prim.Native.Nat.{ℕ, zero, suc, ◌≤◌, ◌<◌}
use mathlib.Core.Path.{◌≡◌, refl, ap, ◌∙◌}
use mathlib.Core.Logic.{inl, inr}
use mathlib.Core.Bool.{Bool, true, false, ◌||◌, ◌&&◌, not}
use mathlib.Core.List.{List, [], ◌∷◌, ◌++◌, map}
use native.Mathlib.Omega.{arith}
use gpb.Common.Tests.{Eq, if◌then◌else◌, Bool-cases}
use gpb.Common.Lists.{length, take, drop, length-drop}
use gpb.Common.Tables.{delete, exists, update_reading, contains, chunk}

module _ {ℓ} {A : Type ℓ} where
  pub exists-reading :
      (p q g : A → Bool) (f : List A → A → A) (before xs : List A)
      → ((table : List A) (x : A) → p (f table x) ≡ g x)
      → exists p (update_reading q f before xs) ≡ exists (λ x. if q x then g x else p x) xs
  exists-reading p q g f before [] h = refl
  exists-reading p q g f before (x ∷ xs) h = ground (
    arith,
    h (before ++ x ∷ xs) x,
    exists-reading p q g f (before ++ (if q x then f (before ++ x ∷ xs) x else x) ∷ []) xs h,
  )

  pub exists_or :
      (p a b : A → Bool) (e : Bool) (xs : List A)
      → ((x : A) → p x ≡ (a x || e && b x))
      → exists p xs ≡ (exists a xs || e && exists b xs)
  exists_or p a b e [] h = ground arith
  exists_or p a b e (x ∷ xs) h = ground (arith, h x, exists_or p a b e xs h)

  pub exists_and :
      (p a : A → Bool) (e : Bool) (xs : List A)
      → ((x : A) → p x ≡ (a x && e))
      → exists p xs ≡ (exists a xs && e)
  exists_and p a e [] h = refl
  exists_and p a e (x ∷ xs) h = ground (arith, h x, exists_and p a e xs h)

  -- A DELETE that takes all of the rows looked for, or none of them.
  pub exists-delete_all :
      (p q : A → Bool) (c : Bool) (xs : List A)
      → ((x : A) → p x ≡ true → q x ≡ c)
      → exists p (delete q xs) ≡ (exists p xs && not c)
  exists-delete_all p q c [] h = refl
  exists-delete_all p q c (x ∷ xs) h = elim (Bool-cases (p x)) [
    | inl e ↦ ground (arith, e, h x e, exists-delete_all p q c xs h)
    | inr e ↦ ground (arith, e, exists-delete_all p q c xs h)
  ]

  pub map-update_reading {κ} :
      {B : Type κ} (g : A → B) (q : A → Bool) (f : List A → A → A) (before xs : List A)
      → ((table : List A) (x : A) → g (f table x) ≡ g x)
      → map g (update_reading q f before xs) ≡ map g xs
  map-update_reading g q f before [] h = refl
  map-update_reading g q f before (x ∷ xs) h = ground (
    arith,
    h (before ++ x ∷ xs) x,
    map-update_reading g q f (before ++ (if q x then f (before ++ x ∷ xs) x else x) ∷ []) xs h,
  )

abbrev pub contains_chunk {ℓ} : {A : Type ℓ} ⦃e : Eq A⦄ → A → List (List A) → Bool
contains_chunk a [] = false
contains_chunk a (xs ∷ xss) = contains a xs || contains_chunk a xss

module _ {ℓ} {A : Type ℓ} ⦃e : Eq A⦄ where
  contains-take-drop :
      (a : A) (n : ℕ) (xs : List A)
      → (contains a (take n xs) || contains a (drop n xs)) ≡ contains a xs
  contains-take-drop a zero xs = refl
  contains-take-drop a (suc n) [] = refl
  contains-take-drop a (suc n) (x ∷ xs) = ground (arith, contains-take-drop a n xs)

  -- With as many rounds as members, the chunks hold every member and no other.
  pub contains-chunk :
      (a : A) (rounds size : ℕ) (xs : List A)
      → 0 < size
      → length xs ≤ rounds
      → contains_chunk a (chunk rounds size xs) ≡ contains a xs
  contains-chunk a zero size [] s h = refl
  contains-chunk a zero size (x ∷ xs) s h = absurd (omega arith)
  contains-chunk a (suc rounds) size [] s h = refl
  contains-chunk a (suc rounds) size (x ∷ xs) s h =
      ap (λ b. contains a (take size (x ∷ xs)) || b)
        (contains-chunk a rounds size (drop size (x ∷ xs)) s
          (omega (arith, length-drop size (x ∷ xs))))
      ∙ contains-take-drop a size (x ∷ xs)

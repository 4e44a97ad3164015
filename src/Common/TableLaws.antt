-- ===== src/Common/TableLaws.antt =====
-- What the statements of Tables keep of a table: its keys, and a property of each row.
use mathlib.Core.Option
use gpb.Common.Tests.{Eq, ◌==◌, if◌then◌else◌, Bool-cases}
use Prim.Native.Nat.{ℕ, zero, suc}
use gpb.Common.Lists.{All, take}
use gpb.Common.Tables.{is_some, update, delete, select, exists, find, update_reading}
use mathlib.Core.Path.{◌≡◌, refl, ◌∙◌}
use mathlib.Core.Logic.{inl, inr}
use mathlib.Core.Bool.{Bool, true, false, ◌||◌}
use mathlib.Core.Option.{Option, none, some}
use mathlib.Core.List.{List, [], ◌∷◌, ◌++◌}
use native.Mathlib.Omega.{arith}

module _ {ℓ} {A : Type ℓ} where
  pub exists-append :
      (p : A → Bool) (xs ys : List A) → exists p (xs ++ ys) ≡ (exists p xs || exists p ys)
  exists-append p [] ys = refl
  exists-append p (x ∷ xs) ys = ground (arith, exists-append p xs ys)

  pub exists-update :
      (p q : A → Bool) (f : A → A) (xs : List A)
      → ((x : A) → p (f x) ≡ p x)
      → exists p (update q f xs) ≡ exists p xs
  exists-update p q f [] h = refl
  exists-update p q f (x ∷ xs) h = ground (arith, h x, exists-update p q f xs h)

  pub exists-update_reading :
      (p q : A → Bool) (f : List A → A → A) (before xs : List A)
      → ((table : List A) (x : A) → p (f table x) ≡ p x)
      → exists p (update_reading q f before xs) ≡ exists p xs
  exists-update_reading p q f before [] h = refl
  exists-update_reading p q f before (x ∷ xs) h = ground (
    arith,
    h (before ++ x ∷ xs) x,
    exists-update_reading p q f (before ++ (if q x then f (before ++ x ∷ xs) x else x) ∷ []) xs h,
  )

  pub exists-delete :
      (p q : A → Bool) (xs : List A) → exists p xs ≡ false → exists p (delete q xs) ≡ false
  exists-delete p q [] h = refl
  exists-delete p q (x ∷ xs) h = ground (arith, exists-delete p q xs)

  pub exists-congr :
      (p q : A → Bool) (xs : List A) → ((x : A) → p x ≡ q x) → exists p xs ≡ exists q xs
  exists-congr p q [] h = refl
  exists-congr p q (x ∷ xs) h = ground (arith, h x, exists-congr p q xs h)

  pub All-update {κ} :
      (P : A → Type κ) (p : A → Bool) (f : A → A) (xs : List A)
      → ((x : A) → p x ≡ true → P x → P (f x))
      → All P xs
      → All P (update p f xs)
  All-update P p f [] h a = tt
  All-update P p f (x ∷ xs) h a = elim (Bool-cases (p x)) [
    | inl e ↦ rw e (h x e a.0, All-update P p f xs h a.1)
    | inr e ↦ rw e (a.0, All-update P p f xs h a.1)
  ]

  pub All-update_reading {κ} :
      (P : A → Type κ) (p : A → Bool) (f : List A → A → A) (before xs : List A)
      → ((table : List A) (x : A) → p x ≡ true → P x → P (f table x))
      → All P xs
      → All P (update_reading p f before xs)
  All-update_reading P p f before [] h a = tt
  All-update_reading P p f before (x ∷ xs) h a = (
    step (p x) refl,
    All-update_reading P p f (before ++ (if p x then f (before ++ x ∷ xs) x else x) ∷ []) xs h a.1,
  )
    where
      step : (b : Bool) → p x ≡ b → P (if b then f (before ++ x ∷ xs) x else x)
      step true e = h (before ++ x ∷ xs) x e a.0
      step false e = a.0

  pub All-delete {κ} :
      (P : A → Type κ) (p : A → Bool) (xs : List A) → All P xs → All P (delete p xs)
  All-delete P p [] a = tt
  All-delete P p (x ∷ xs) a = elim (Bool-cases (p x)) [
    | inl e ↦ rw e (All-delete P p xs a.1)
    | inr e ↦ rw e (a.0, All-delete P p xs a.1)
  ]

-- A PRIMARY KEY: no two rows are related by `same`.
abbrev pub IsUnique {ℓ} : {A : Type ℓ} → (A → A → Bool) → List A → Type 0
IsUnique same [] = Unit {0}
IsUnique same (x ∷ xs) = (exists (same x) xs ≡ false) × IsUnique same xs

module _ {ℓ} {A : Type ℓ} (same : A → A → Bool) where
  pub IsUnique-append_new :
      (xs : List A) (x : A)
      → ((a b : A) → same a b ≡ same b a)
      → exists (same x) xs ≡ false
      → IsUnique same xs
      → IsUnique same (xs ++ x ∷ [])
  IsUnique-append_new [] x comm new u = (refl, tt)
  IsUnique-append_new (y ∷ xs) x comm new u = (
    ground (arith, exists-append (same y) xs (x ∷ []), comm x y),
    IsUnique-append_new xs x comm (ground arith) u.1,
  )

  pub IsUnique-update :
      (p : A → Bool) (f : A → A) (xs : List A)
      → ((a b : A) → same (f a) b ≡ same a b)
      → ((a b : A) → same a (f b) ≡ same a b)
      → IsUnique same xs
      → IsUnique same (update p f xs)
  IsUnique-update p f [] l r u = tt
  IsUnique-update p f (x ∷ xs) l r u = elim (Bool-cases (p x)) [
    | inl e ↦ rw e (
      exists-update (same (f x)) p f xs (r (f x))
          ∙ exists-congr (same (f x)) (same x) xs (l x)
          ∙ u.0,
      IsUnique-update p f xs l r u.1,
    )
    | inr e ↦ rw e (exists-update (same x) p f xs (r x) ∙ u.0, IsUnique-update p f xs l r u.1)
  ]

  pub IsUnique-update_reading :
      (p : A → Bool) (f : List A → A → A) (before xs : List A)
      → ((t : List A) (a b : A) → same (f t a) b ≡ same a b)
      → ((t : List A) (a b : A) → same a (f t b) ≡ same a b)
      → IsUnique same xs
      → IsUnique same (update_reading p f before xs)
  IsUnique-update_reading p f before [] l r u = tt
  IsUnique-update_reading p f before (x ∷ xs) l r u = (
    exists-update_reading (same (step (p x))) p f (before ++ step (p x) ∷ []) xs
          (λ t. r t (step (p x)))
        ∙ exists-congr (same (step (p x))) (same x) xs (left (p x))
        ∙ u.0,
    IsUnique-update_reading p f (before ++ step (p x) ∷ []) xs l r u.1,
  )
    where
      step : Bool → A
      step b = if b then f (before ++ x ∷ xs) x else x

      left : (c : Bool) (b : A) → same (step c) b ≡ same x b
      left true b = l (before ++ x ∷ xs) x b
      left false b = refl

  pub IsUnique-delete :
      (p : A → Bool) (xs : List A) → IsUnique same xs → IsUnique same (delete p xs)
  IsUnique-delete p [] u = tt
  IsUnique-delete p (x ∷ xs) u = elim (Bool-cases (p x)) [
    | inl e ↦ rw e (IsUnique-delete p xs u.1)
    | inr e ↦ rw e (exists-delete (same x) p xs u.0, IsUnique-delete p xs u.1)
  ]

module _ {ℓ κ} {A : Type ℓ} {K : Type κ} ⦃e : Eq K⦄ (key : A → K) where
  -- A row is read back by its key as the statement left it.
  pub find-update :
      (j k : K) (f : A → A) (xs : List A)
      → ((x : A) → key (f x) ≡ key x)
      → find (λ x. key x == k) (update (λ x. key x == j) f xs)
        ≡ (if j == k then Option.map f (find (λ x. key x == k) xs) else find (λ x. key x == k) xs)
  find-update j k f [] h = ground arith
  find-update j k f (x ∷ xs) h = ground (
    arith,
    h x,
    find-update j k f xs h,
    e.same_iff (key x) j,
    e.same_iff (key x) k,
    e.same_iff (key (f x)) k,
    e.same_iff j k,
  )

module _ {ℓ} {A : Type ℓ} where
  pub is_some-find : (p : A → Bool) (xs : List A) → is_some (find p xs) ≡ exists p xs
  is_some-find p [] = refl
  is_some-find p (x ∷ xs) = ground (arith, is_some-find p xs)

  pub find-append :
      (p : A → Bool) (xs ys : List A)
      → find p (xs ++ ys) ≡ (if exists p xs then find p xs else find p ys)
  find-append p [] ys = refl
  find-append p (x ∷ xs) ys = ground (arith, find-append p xs ys)

  pub find_holds : (p : A → Bool) (xs : List A) (x : A) → find p xs ≡ some x → p x ≡ true
  find_holds p [] x h = cc
  find_holds p (y ∷ xs) x h = ground (arith, find_holds p xs x)

  pub All-select : (p : A → Bool) (xs : List A) → All (λ x. p x ≡ true) (select p xs)
  All-select p [] = tt
  All-select p (x ∷ xs) = elim (Bool-cases (p x)) [
    | inl e ↦ rw e (e, All-select p xs)
    | inr e ↦ rw e (All-select p xs)
  ]

  pub All-take {κ} : (P : A → Type κ) (n : ℕ) (xs : List A) → All P xs → All P (take n xs)
  All-take P zero xs a = tt
  All-take P (suc n) [] a = tt
  All-take P (suc n) (x ∷ xs) a = (a.0, All-take P n xs a.1)

  pub update_none :
      (p : A → Bool) (f : A → A) (xs : List A) → exists p xs ≡ false → update p f xs ≡ xs
  update_none p f [] h = refl
  update_none p f (x ∷ xs) h = ground (arith, update_none p f xs)

  pub update-append :
      (p : A → Bool) (f : A → A) (xs ys : List A)
      → update p f (xs ++ ys) ≡ update p f xs ++ update p f ys
  update-append p f [] ys = refl
  update-append p f (x ∷ xs) ys = ground (arith, update-append p f xs ys)

  -- A statement that changes no row which it has already rewritten.
  pub update_idem :
      (p : A → Bool) (f : A → A) (xs : List A)
      → ((x : A) → f (f x) ≡ f x)
      → ((x : A) → p (f x) ≡ p x)
      → update p f (update p f xs) ≡ update p f xs
  update_idem p f [] h k = refl
  update_idem p f (x ∷ xs) h k = ground (arith, h x, k x, update_idem p f xs h k)

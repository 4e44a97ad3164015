-- ===== src/Geo/Ensures.antt =====
-- What a read ensures: that it does not panic, and a predicate of the value it got.
use gpb.Geo.Bytes.{
  Read, got, absent, unreadable, panicked, unfinished, ◌>>=◌, panics, slice, from_on, ByteOrder,
  uint,
}
use gpb.Common.{
  ℕ, ◌+◌, ◌-◌, ◌≤◌, Bool, true, false, ◌&&◌, ◌≡◌, refl, Option, none, some, List, leb,
  if◌then◌else◌, length, take, drop, length-take, length-drop, arith,
}

module _ {ℓ} {A : Type ℓ} where
  unfoldable pub Ensures : (A → Type 0) → Read A → Type 0
  Ensures P (got a) = P a
  Ensures P absent = Unit
  Ensures P unreadable = Unit
  Ensures P unfinished = ⊥
  Ensures P panicked = ⊥

  -- A walk that its fuel was enough for.
  unfoldable pub Ends : (A → Type 0) → Option (Read A) → Type 0
  unfolding Ensures
  Ends P none = ⊥
  Ends P (some r) = Ensures P r

  -- A predicate of the value it got, where it got one.
  unfoldable pub Yields : (A → Type 0) → Option (Read A) → Type 0
  Yields P (some (got a)) = P a
  Yields P (some absent) = Unit
  Yields P (some unreadable) = Unit
  Yields P (some unfinished) = ⊥
  Yields P (some panicked) = Unit
  Yields P none = ⊥

  pub Ends-Yields : (P : A → Type 0) (o : Option (Read A)) → Ends P o → Yields P o
  unfolding Ends Ensures Yields
  Ends-Yields P (some (got a)) h = h
  Ends-Yields P (some absent) h = tt
  Ends-Yields P (some unreadable) h = tt
  Ends-Yields P (some unfinished) h = h
  Ends-Yields P (some panicked) h = tt
  Ends-Yields P none h = h

  pub Yields-if :
      (P : A → Type 0) (c : Bool) (r s : Option (Read A))
      → (c ≡ true → Yields P r)
      → (c ≡ false → Yields P s)
      → Yields P (if c then r else s)
  Yields-if P true r s f g = f refl
  Yields-if P false r s f g = g refl

  pub Ends-if :
      (P : A → Type 0) (c : Bool) (r s : Option (Read A))
      → (c ≡ true → Ends P r)
      → (c ≡ false → Ends P s)
      → Ends P (if c then r else s)
  Ends-if P true r s f g = f refl
  Ends-if P false r s f g = g refl

  pub Ensures-map :
      (P Q : A → Type 0) (r : Read A) → ((a : A) → P a → Q a) → Ensures P r → Ensures Q r
  unfolding Ensures
  Ensures-map P Q (got a) f h = f a h
  Ensures-map P Q absent f h = tt
  Ensures-map P Q unreadable f h = tt
  Ensures-map P Q unfinished f h = elim h [ ]
  Ensures-map P Q panicked f h = elim h [ ]

  pub Ensures-panics : (P : A → Type 0) (r : Read A) → Ensures P r → panics r ≡ false
  unfolding Ensures
  Ensures-panics P (got a) h = refl
  Ensures-panics P absent h = refl
  Ensures-panics P unreadable h = refl
  Ensures-panics P unfinished h = elim h [ ]
  Ensures-panics P panicked h = elim h [ ]

  -- The read comes to an end, with an answer or in a panic.
  abbrev pub Finishes : Read A → Type 0
  Finishes r = Yields (λ a. Unit) (some r)

  pub Ensures-Finishes : (P : A → Type 0) (r : Read A) → Ensures P r → Finishes r
  unfolding Ensures Yields
  Ensures-Finishes P (got a) h = tt
  Ensures-Finishes P absent h = tt
  Ensures-Finishes P unreadable h = tt
  Ensures-Finishes P unfinished h = h
  Ensures-Finishes P panicked h = tt

  pub Ensures-if :
      (P : A → Type 0) (c : Bool) (r s : Read A)
      → (c ≡ true → Ensures P r)
      → (c ≡ false → Ensures P s)
      → Ensures P (if c then r else s)
  Ensures-if P true r s f g = f refl
  Ensures-if P false r s f g = g refl

pub Ensures-bind {ℓ κ} :
    {A : Type ℓ} {B : Type κ} (P : A → Type 0) (Q : B → Type 0) (r : Read A) (f : A → Read B)
    → Ensures P r
    → ((a : A) → P a → Ensures Q (f a))
    → Ensures Q (r >>= f)
unfolding Ensures
Ensures-bind P Q (got a) f h k = k a h
Ensures-bind P Q absent f h k = tt
Ensures-bind P Q unreadable f h k = tt
Ensures-bind P Q unfinished f h k = elim h [ ]
Ensures-bind P Q panicked f h k = elim h [ ]

pub Yields-bind {ℓ κ} :
    {A : Type ℓ} {B : Type κ} (Q : B → Type 0) (r : Read A) (f : A → Read B)
    → Finishes r
    → ((a : A) → Yields Q (some (f a)))
    → Yields Q (some (r >>= f))
unfolding Yields
Yields-bind Q (got a) f h k = k a
Yields-bind Q absent f h k = tt
Yields-bind Q unreadable f h k = tt
Yields-bind Q panicked f h k = tt
Yields-bind Q unfinished f h k = elim h [ ]

-- No panic, whatever is got.
abbrev pub Returns {ℓ} : {A : Type ℓ} → Read A → Type 0
Returns {A} r = Ensures (λ (a : A). Unit) r

pub slice-Ensures :
    (bytes : List ℕ) (from to : ℕ)
    → from ≤ to
    → to ≤ length bytes
    → Ensures (λ part. length part ≡ to - from) (slice bytes from to)
unfolding Ensures
slice-Ensures bytes from to h k =
    Ensures-if (λ part. length part ≡ to - from) (leb from to && leb to (length bytes))
      (got (take (to - from) (drop from bytes))) panicked
      (λ e. omega (arith, length-take (to - from) (drop from bytes), length-drop from bytes, h, k))
      (λ e. ground (arith, e, h, k))

pub from_on-Ensures :
    (bytes : List ℕ) (from : ℕ)
    → from ≤ length bytes
    → Ensures (λ rest. length rest ≡ length bytes - from) (from_on bytes from)
unfolding Ensures
from_on-Ensures bytes from h =
    Ensures-if (λ rest. length rest ≡ length bytes - from) (leb from (length bytes))
      (got (drop from bytes)) panicked (λ e. length-drop from bytes) (λ e. ground (arith, e, h))

pub uint-Ensures :
    (order : ByteOrder) (width : ℕ) (bytes : List ℕ)
    → width ≤ length bytes
    → Ensures (λ value. Unit) (uint order width bytes)
unfolding Ensures uint
uint-Ensures order width bytes h = ground (arith, h)

-- What follows the number at a position of bytes that reach past it.
pub number_at-Ensures {ℓ} :
    {A : Type ℓ} (Q : A → Type 0) (order : ByteOrder) (width from : ℕ) (bytes : List ℕ)
    (f : ℕ → Read A)
    → from + width ≤ length bytes
    → ((value : ℕ) → Ensures Q (f value))
    → Ensures Q (from_on bytes from >>= λ rest. uint order width rest >>= f)
number_at-Ensures Q order width from bytes f h k =
    Ensures-bind (λ rest. length rest ≡ length bytes - from) Q (from_on bytes from)
      (λ rest. uint order width rest >>= f) (from_on-Ensures bytes from (omega (arith, h)))
      (λ rest e.
        Ensures-bind (λ value. Unit) Q (uint order width rest) f
          (uint-Ensures order width rest (omega (arith, e, h))) (λ value u. k value))

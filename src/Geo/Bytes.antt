-- ===== src/Geo/Bytes.antt =====
-- Bytes as internal/geo reads them: a slice expression and the readers of encoding/binary panic out of
-- range, as in Go. A position is the bit pattern of an int64.
use gpb.Common.{
  ℕ, zero, suc, ◌+◌, ◌-◌, ◌*◌, ◌%◌, ◌^◌, Bool, true, false, ◌&&◌, List, [], ◌∷◌, ltb, leb, ◌==◌,
  nat_eq, if◌then◌else◌, length, take, drop,
}

-- A value, the `false` or the error of a Go function, or a panic. `unfinished` is no answer of the code: a
-- loop whose fuel ran out.
pub data Read {ℓ} (A : Type ℓ) : Type ℓ where
  got : A → Read A
  absent unreadable panicked unfinished : Read A

infixl 5 ◌>>=◌
abbrev pub ◌>>=◌ {ℓ κ} : {A : Type ℓ} {B : Type κ} → Read A → (A → Read B) → Read B
got a >>= f = f a
absent >>= f = absent
unreadable >>= f = unreadable
unfinished >>= f = unfinished
panicked >>= f = panicked

abbrev pub panics {ℓ} : {A : Type ℓ} → Read A → Bool
panics panicked = true
panics _ = false

-- bytes[from:to]
abbrev pub slice : List ℕ → ℕ → ℕ → Read (List ℕ)
slice bytes from to =
    if leb from to && leb to (length bytes)
    then got (take (to - from) (drop from bytes))
    else panicked

-- bytes[from:]
abbrev pub from_on : List ℕ → ℕ → Read (List ℕ)
from_on bytes from = if leb from (length bytes) then got (drop from bytes) else panicked

pub data ByteOrder : Type 0 where
  big_endian little_endian : ByteOrder

abbrev pub big : ℕ → List ℕ → ℕ
big acc [] = acc
big acc (b ∷ bytes) = big (acc * 256 + b) bytes

abbrev pub little : List ℕ → ℕ
little [] = 0
little (b ∷ bytes) = b + 256 * little bytes

abbrev pub value_of : ByteOrder → List ℕ → ℕ
value_of big_endian bytes = big 0 bytes
value_of little_endian bytes = little bytes

-- Uint16, Uint32 and Uint64 of encoding/binary, by the width in bytes.
unfoldable pub uint : ByteOrder → ℕ → List ℕ → Read ℕ
uint order width bytes =
    if leb width (length bytes) then got (value_of order (take width bytes)) else panicked

abbrev pub has_prefix : List ℕ → List ℕ → Bool
has_prefix [] bytes = true
has_prefix (p ∷ prefix) [] = false
has_prefix (p ∷ prefix) (b ∷ bytes) = p == b && has_prefix prefix bytes

abbrev pub same_bytes : List ℕ → List ℕ → Bool
same_bytes [] [] = true
same_bytes [] (b ∷ bs) = false
same_bytes (a ∷ others) [] = false
same_bytes (a ∷ others) (b ∷ bs) = a == b && same_bytes others bs

abbrev pub byte_at : ℕ → List ℕ → ℕ
byte_at at [] = 0
byte_at zero (b ∷ bytes) = b
byte_at (suc at) (b ∷ bytes) = byte_at at bytes

-- int64 arithmetic and comparison on bit patterns.
abbrev pub add64 : ℕ → ℕ → ℕ
add64 a b = (a + b) % 2 ^ 64

abbrev pub sub64 : ℕ → ℕ → ℕ
sub64 a b = (a + 2 ^ 64 - b) % 2 ^ 64

abbrev pub lt64 : ℕ → ℕ → Bool
lt64 a b = ltb ((a + 2 ^ 63) % 2 ^ 64) ((b + 2 ^ 63) % 2 ^ 64)

abbrev pub is_negative : ℕ → Bool
is_negative a = leb (2 ^ 63) a

-- The bytes from a position on, up to so many: what a read after a seek gives, less at the end.
abbrev pub read_up_to : List ℕ → ℕ → ℕ → List ℕ
read_up_to file at limit = take limit (drop at file)

-- io.ReadFull after a seek: an error where the file ends before.
abbrev pub read_full : List ℕ → ℕ → ℕ → Read (List ℕ)
read_full file at n = if leb (at + n) (length file) then got (take n (drop at file)) else unreadable

-- ===== src/Gphotos/Json.antt =====
-- The values that encoding/json decodes into `any`. A number is the bit pattern of a float64; an object's
-- keys are distinct, as in a Go map.
use gpb.Common.{ℕ, zero, suc, Bool, String, ◌==◌, string_eq, if◌then◌else◌}

mutual
  pub data Json : Type 0 where
    null : Json
    string : String → Json
    number : ℕ → Json
    boolean : Bool → Json
    array : Elements → Json
    object : Members → Json

  pub data Elements : Type 0 where
    nil : Elements
    cons : Json → Elements → Elements

  pub data Members : Type 0 where
    done : Members
    member : String → Json → Members → Members

-- What the decoders use of Go's conversions: int64 of a float64 as a bit pattern, and whether a float64 is
-- over zero.
pub record Conversions : Type 0 where
  pub to_int64 : ℕ → ℕ
  pub is_positive : ℕ → Bool

abbrev pub count : Elements → ℕ
count nil = 0
count (cons element elements) = suc (count elements)

abbrev pub count_members : Members → ℕ
count_members done = 0
count_members (member name value members) = suc (count_members members)

-- list[index], with the zero value out of range.
abbrev pub element : ℕ → Elements → Json
element index nil = null
element zero (cons first elements) = first
element (suc index) (cons first elements) = element index elements

abbrev pub last_of : Elements → Json
last_of nil = null
last_of (cons only nil) = only
last_of (cons first (cons second elements)) = last_of (cons second elements)

-- object[name], with the zero value for a missing name.
abbrev pub member_of : String → Members → Json
member_of name done = null
member_of name (member other value members) =
    if other == name then value else member_of name members

abbrev pub sole_member : Members → Json
sole_member (member name value done) = value
sole_member _ = null

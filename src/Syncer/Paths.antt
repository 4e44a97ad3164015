-- ===== src/Syncer/Paths.antt =====
-- internal/syncer/paths.go: safeName, over the runes of a name.
pub mod Safety
use gpb.Common.{
  ℕ, Bool, true, false, ◌&&◌, ◌||◌, List, [], ◌∷◌, ltb, ◌==◌, nat_eq, if◌then◌else◌, exists,
}

-- / \ : * ? " < > |
abbrev pub reserved : List ℕ
reserved = 0x2F ∷ 0x5C ∷ 0x3A ∷ 0x2A ∷ 0x3F ∷ 0x22 ∷ 0x3C ∷ 0x3E ∷ 0x7C ∷ []

abbrev pub is_control : ℕ → Bool
is_control r = ltb r 0x20 || r == 0x7F

abbrev pub is_reserved : ℕ → Bool
is_reserved r = exists (λ c. r == c) reserved

-- strings.Map: a control character is left out, and a reserved one becomes an underscore.
unfoldable pub mapped : List ℕ → List ℕ
mapped [] = []
mapped (r ∷ name) =
    let rest = mapped name in
    if is_control r then rest else if is_reserved r then 0x5F ∷ rest else r ∷ rest

-- strings.Trim(name, " .")
abbrev pub in_cutset : ℕ → Bool
in_cutset r = r == 0x20 || r == 0x2E

unfoldable pub trim_left : List ℕ → List ℕ
trim_left [] = []
trim_left (r ∷ name) = let rest = trim_left name in if in_cutset r then rest else r ∷ name

abbrev pub before_cut : ℕ → List ℕ → List ℕ
before_cut r [] = if in_cutset r then [] else r ∷ []
before_cut r (next ∷ rest) = r ∷ next ∷ rest

unfoldable pub trim_right : List ℕ → List ℕ
trim_right [] = []
trim_right (r ∷ name) = before_cut r (trim_right name)

abbrev pub is_dots : List ℕ → Bool
is_dots (r ∷ []) = r == 0x2E
is_dots (r ∷ s ∷ []) = r == 0x2E && s == 0x2E
is_dots _ = false

unfoldable pub safe_name : List ℕ → List ℕ
unfolding mapped trim_left trim_right
safe_name name =
    let trimmed = trim_right (trim_left (mapped name)) in if is_dots trimmed then [] else trimmed

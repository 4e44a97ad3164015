-- ===== src/Geo/Iso6709.antt =====
-- internal/geo/isobmff.go: the ISO 6709 text a movie's location is, as bytes.
use gpb.Geo.Bytes.{byte_at}
use gpb.Geo.Float64.{Float64}
use gpb.Geo.Tiff.{Coordinates}
use gpb.Common.{
  ℕ, ◌-◌, ◌/◌, ◌%◌, Bool, ◌||◌, Option, none, some, List, [], ◌∷◌, ◌++◌, ltb, ◌==◌, nat_eq,
  if◌then◌else◌, length, drop,
}

abbrev pub is_sign : ℕ → Bool
is_sign c = c == 0x2B || c == 0x2D

-- strings.TrimSuffix(text, "/")
abbrev pub without_slash : List ℕ → List ℕ
without_slash [] = []
without_slash (c ∷ []) = if c == 0x2F then [] else c ∷ []
without_slash (c ∷ d ∷ text) = c ∷ without_slash (d ∷ text)

-- The loop of signedParts: the part open at a point of the text, where one is.
unfoldable pub parts_from : Option (List ℕ) → List ℕ → List (List ℕ)
parts_from none [] = []
parts_from (some part) [] = part ∷ []
parts_from none (c ∷ text) =
    let opened = parts_from (some (c ∷ [])) text in
    let skipped = parts_from none text in if is_sign c then opened else skipped
parts_from (some part) (c ∷ text) =
    let opened = parts_from (some (c ∷ [])) text in
    let continued = parts_from (some (part ++ c ∷ [])) text in
    if is_sign c then part ∷ opened else continued

unfoldable pub signed_parts : List ℕ → List (List ℕ)
unfolding parts_from
signed_parts text = parts_from none text

-- number[:dot], or the whole number without a dot.
abbrev pub before_dot : List ℕ → List ℕ
before_dot [] = []
before_dot (c ∷ number) = let rest = before_dot number in if c == 0x2E then [] else c ∷ rest

module _ (fl : Float64) where
  -- The angle of a number with so many digits more than its degrees have.
  unfoldable pub angle_of_digits : ℕ → fl.F → Option fl.F
  angle_of_digits extra value =
      let whole = fl.truncate value in
      let hundreds = fl.of_nat (whole / 100) in
      let degrees = fl.of_nat (whole / 10000) in
      let minutes = fl.of_nat (whole / 100 % 100) in
      let seconds =
        fl.subtract (fl.subtract value (fl.multiply degrees (fl.of_nat 10000)))
          (fl.multiply minutes (fl.of_nat 100)) in
      if extra == 0
      then some value
      else if extra == 2
      then some (
          fl.add hundreds
            (fl.divide (fl.subtract value (fl.multiply hundreds (fl.of_nat 100))) (fl.of_nat 60)))
      else if extra == 4
      then some (
          fl.add (fl.add degrees (fl.divide minutes (fl.of_nat 60)))
            (fl.divide seconds (fl.of_nat 3600)))
      else none

  abbrev pub signed : List ℕ → Option fl.F → Option fl.F
  signed part none = none
  signed part (some angle) =
      some (
        fl.multiply (if byte_at 0 part == 0x2D then fl.negate (fl.of_nat 1) else fl.of_nat 1) angle)

  abbrev pub angle_of_number : ℕ → List ℕ → Option fl.F → Option fl.F
  angle_of_number degree_digits number none = none
  angle_of_number degree_digits number (some value) =
      if ltb (length (before_dot number)) degree_digits
      then none
      else angle_of_digits (length (before_dot number) - degree_digits) value

  unfoldable pub angle_of_iso6709 : List ℕ → ℕ → Option fl.F
  angle_of_iso6709 part degree_digits =
      if ltb (length part) 2
      then none
      else signed part (angle_of_number degree_digits (drop 1 part) (fl.parse_float (drop 1 part)))

  abbrev pub coordinates_of : Option fl.F → Option fl.F → Option (Coordinates fl)
  coordinates_of (some latitude) (some longitude) =
      some (record { latitude = latitude; longitude = longitude })
  coordinates_of (some latitude) none = none
  coordinates_of none longitude = none

  abbrev pub located_by : List (List ℕ) → Option (Coordinates fl)
  located_by (first ∷ second ∷ parts) =
      coordinates_of (angle_of_iso6709 first 2) (angle_of_iso6709 second 3)
  located_by _ = none

  unfoldable pub parse_iso6709 : List ℕ → Option (Coordinates fl)
  unfolding signed_parts
  parse_iso6709 text =
      located_by (signed_parts (fl.trim_space (without_slash (fl.trim_space text))))

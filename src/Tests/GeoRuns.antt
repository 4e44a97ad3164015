-- ===== src/Tests/GeoRuns.antt =====
-- Runs of internal/geo, over a TIFF, a HEIC and a movie of a few bytes.
use gpb.Geo.Bytes.{unfinished, got, panicked, panics, uint}
use gpb.Geo.Boxes.{Box}
use gpb.Geo.Float64.{Float64}
use gpb.Geo.Heic.{exif_item_id, extent_of}
use gpb.Geo.HeicSafety.{exif_item_id-panics}
use gpb.Geo.Iso6709.{signed_parts, angle_of_iso6709, angle_of_digits}
use gpb.Geo.Iso6709Laws.{signed_parts_lem, joined, from_first_sign, IsSigned}
use gpb.Geo.Movie.{location_of_movie}
use gpb.Geo.Reading.{read_location}
use gpb.Geo.ReadingSafety.{readers_lem, read_location-IsDone, read_location-IsPlausible}
use gpb.Geo.Tiff.{Coordinates, from_tiff}
use gpb.Common.{
  ℕ, ◌+◌, ◌-◌, ◌*◌, ◌/◌, Bool, true, false, ◌&&◌, not, ◌≡◌, ◌≢◌, refl, Option, none, some, List, [],
  ◌∷◌, ltb, leb, ◌==◌, nat_eq, if◌then◌else◌, take, All,
}

-- A number in millionths, with its sign.
record Fixed : Type 0 where
  negative : Bool
  micro : ℕ

abbrev million : ℕ
million = 1000000

abbrev signed : Bool → ℕ → Fixed
signed negative micro = record { negative = negative && not (micro == 0); micro = micro }

abbrev add : Fixed → Fixed → Fixed
add a b =
    if a.negative && b.negative
    then signed true (a.micro + b.micro)
    else if a.negative
    then (if ltb b.micro a.micro
        then signed true (a.micro - b.micro)
        else signed false (b.micro - a.micro))
    else if b.negative
    then (if ltb a.micro b.micro
        then signed true (b.micro - a.micro)
        else signed false (a.micro - b.micro))
    else signed false (a.micro + b.micro)

abbrev opposite : Fixed → Fixed
opposite a = signed (not a.negative) a.micro

abbrev same_sign : Fixed → Fixed → Bool
same_sign a b = if a.negative then b.negative else not b.negative

abbrev less : Fixed → Fixed → Bool
less a b =
    if a.negative
    then (if b.negative then ltb b.micro a.micro else true)
    else if b.negative
    then false
    else ltb a.micro b.micro

-- The digits of a text up to its point, and so many after it as there are.
abbrev decimal : ℕ → ℕ → Bool → List ℕ → Option ℕ
decimal whole unit after [] = some whole
decimal whole unit after (c ∷ text) =
    if c == 0x2E
    then decimal whole (unit / 10) true text
    else if leb 0x30 c && leb c 0x39
    then (if after
        then decimal (whole + (c - 0x30) * unit) (unit / 10) true text
        else decimal (whole * 10 + (c - 0x30) * million) unit false text)
    else none

abbrev fixed_of : Option ℕ → Option Fixed
fixed_of none = none
fixed_of (some micro) = some (signed false micro)

abbrev fixed : Float64
fixed = record {
  F = Fixed;
  of_nat = λ n. signed false (n * million);
  add = add;
  subtract = λ a b. add a (opposite b);
  multiply = λ a b. signed (not (same_sign a b)) (a.micro * b.micro / million);
  divide = λ a b. signed (not (same_sign a b)) (a.micro * million / b.micro);
  negate = opposite;
  less = less;
  equal = λ a b. same_sign a b && a.micro == b.micro;
  truncate = λ a. a.micro / million;
  parse_float = λ text. fixed_of (decimal 0 million false text);
  trim_space = λ text. text;
}

-- A big-endian TIFF taken at 47°30'N 19°3'E.
abbrev tiff_file : List ℕ
tiff_file =
    77 ∷ 77 ∷ 0 ∷ 42 ∷ 0 ∷ 0 ∷ 0 ∷ 8 ∷ 0 ∷ 1 ∷ 136 ∷ 37 ∷ 0 ∷ 4 ∷ 0 ∷ 0 ∷ 0 ∷ 1 ∷ 0 ∷ 0 ∷ 0 ∷ 26 ∷ 0
    ∷ 0 ∷ 0 ∷ 0 ∷ 0 ∷ 4 ∷ 0 ∷ 1 ∷ 0 ∷ 2 ∷ 0 ∷ 0 ∷ 0 ∷ 2 ∷ 78 ∷ 0 ∷ 0 ∷ 0 ∷ 0 ∷ 2 ∷ 0 ∷ 5 ∷ 0 ∷ 0 ∷ 0
    ∷ 3 ∷ 0 ∷ 0 ∷ 0 ∷ 80 ∷ 0 ∷ 3 ∷ 0 ∷ 2 ∷ 0 ∷ 0 ∷ 0 ∷ 2 ∷ 69 ∷ 0 ∷ 0 ∷ 0 ∷ 0 ∷ 4 ∷ 0 ∷ 5 ∷ 0 ∷ 0
    ∷ 0 ∷ 3 ∷ 0 ∷ 0 ∷ 0 ∷ 104 ∷ 0 ∷ 0 ∷ 0 ∷ 0 ∷ 0 ∷ 0 ∷ 0 ∷ 47 ∷ 0 ∷ 0 ∷ 0 ∷ 1 ∷ 0 ∷ 0 ∷ 0 ∷ 30 ∷ 0
    ∷ 0 ∷ 0 ∷ 1 ∷ 0 ∷ 0 ∷ 0 ∷ 0 ∷ 0 ∷ 0 ∷ 0 ∷ 1 ∷ 0 ∷ 0 ∷ 0 ∷ 19 ∷ 0 ∷ 0 ∷ 0 ∷ 1 ∷ 0 ∷ 0 ∷ 0 ∷ 3 ∷ 0
    ∷ 0 ∷ 0 ∷ 1 ∷ 0 ∷ 0 ∷ 0 ∷ 0 ∷ 0 ∷ 0 ∷ 0 ∷ 1 ∷ []

-- A HEIC whose iinf has a body of six bytes and version 1.
abbrev heic_file : List ℕ
heic_file =
    0 ∷ 0 ∷ 0 ∷ 12 ∷ 102 ∷ 116 ∷ 121 ∷ 112 ∷ 104 ∷ 101 ∷ 105 ∷ 99 ∷ 0 ∷ 0 ∷ 0 ∷ 26 ∷ 109 ∷ 101 ∷ 116
    ∷ 97 ∷ 0 ∷ 0 ∷ 0 ∷ 0 ∷ 0 ∷ 0 ∷ 0 ∷ 14 ∷ 105 ∷ 105 ∷ 110 ∷ 102 ∷ 1 ∷ 0 ∷ 0 ∷ 0 ∷ 0 ∷ 0 ∷ []

abbrev movie_file : List ℕ
movie_file =
    0 ∷ 0 ∷ 0 ∷ 12 ∷ 102 ∷ 116 ∷ 121 ∷ 112 ∷ 113 ∷ 116 ∷ 32 ∷ 32 ∷ 0 ∷ 0 ∷ 0 ∷ 41 ∷ 109 ∷ 111 ∷ 111
    ∷ 118 ∷ 0 ∷ 0 ∷ 0 ∷ 33 ∷ 117 ∷ 100 ∷ 116 ∷ 97 ∷ 0 ∷ 0 ∷ 0 ∷ 25 ∷ 169 ∷ 120 ∷ 121 ∷ 122 ∷ 0 ∷ 17
    ∷ 21 ∷ 199 ∷ 43 ∷ 52 ∷ 55 ∷ 46 ∷ 53 ∷ 43 ∷ 48 ∷ 49 ∷ 57 ∷ 46 ∷ 48 ∷ 53 ∷ 47 ∷ []

abbrev iloc_body : List ℕ
iloc_body =
    0 ∷ 0 ∷ 0 ∷ 0 ∷ 68 ∷ 0 ∷ 0 ∷ 1 ∷ 0 ∷ 7 ∷ 0 ∷ 0 ∷ 0 ∷ 1 ∷ 0 ∷ 0 ∷ 0 ∷ 100 ∷ 0 ∷ 0 ∷ 0 ∷ 50 ∷ []

abbrev fixed_at : ℕ → ℕ → Coordinates fixed
fixed_at latitude longitude = record {
  latitude = signed false latitude;
  longitude = signed false longitude;
}

abbrev movie_box : Box
movie_box = record {
  kind = 0x6D ∷ 0x6F ∷ 0x6F ∷ 0x76 ∷ [];
  start = 12;
  body = 20;
  end = 53;
  header = 8;
}

reads_tiff : read_location fixed tiff_file ≡ some (got (fixed_at 47500000 19050000))
unfolding read_location uint
reads_tiff = refl

reads_movie : read_location fixed movie_file ≡ some (got (fixed_at 47500000 19050000))
unfolding read_location angle_of_iso6709 angle_of_digits
reads_movie = refl

-- The process ends on this file.
reads_heic : read_location fixed heic_file ≡ some panicked
unfolding read_location uint
reads_heic = refl

finds_extent : extent_of 7 iloc_body ≡ got (100, 50)
unfolding extent_of
finds_extent = refl

exif_item_id-panics_example : panics (exif_item_id (1 ∷ 0 ∷ 0 ∷ 0 ∷ 0 ∷ 0 ∷ [])) ≡ true
exif_item_id-panics_example = exif_item_id-panics (1 ∷ 0 ∷ 0 ∷ 0 ∷ 0 ∷ 0 ∷ [])

readers_lem_example :
    (panics (from_tiff fixed (take 40 tiff_file)) ≡ false)
    × (panics (extent_of 7 iloc_body) ≡ false)
    × (panics (location_of_movie fixed movie_file movie_box) ≡ false)
readers_lem_example = readers_lem fixed (take 40 tiff_file) iloc_body movie_file 7 movie_box

read_location-IsDone_example :
    (read_location fixed heic_file ≢ none) × (read_location fixed heic_file ≢ some unfinished)
read_location-IsDone_example = read_location-IsDone fixed heic_file

-- Every one of these numbers is one, and one that is not less is at most the other.
abbrev is_fixed : Fixed → Bool
is_fixed a = true

abbrev at_most : Fixed → Fixed → Bool
at_most a b = not (fixed.less b a)

at_most-less : (a b : Fixed) → fixed.less b a ≡ false → at_most a b ≡ true
at_most-less a b h = rw h refl

read_location-IsPlausible_example :
    ((fixed.equal (signed false 47500000) (fixed.of_nat 0)
        && fixed.equal (signed false 19050000) (fixed.of_nat 0))
      ≡ false)
    × (at_most (fixed.negate (fixed.of_nat 90)) (signed false 47500000) ≡ true)
    × (at_most (signed false 47500000) (fixed.of_nat 90) ≡ true)
    × (at_most (fixed.negate (fixed.of_nat 180)) (signed false 19050000) ≡ true)
    × (at_most (signed false 19050000) (fixed.of_nat 180) ≡ true)
read_location-IsPlausible_example =
    read_location-IsPlausible fixed tiff_file is_fixed at_most (λ a b n m h. at_most-less a b h)
      (λ n. refl) (λ a h. refl) (fixed_at 47500000 19050000) refl refl reads_tiff

-- "x+47.5+019.05"
abbrev place_text : List ℕ
place_text = 120 ∷ 43 ∷ 52 ∷ 55 ∷ 46 ∷ 53 ∷ 43 ∷ 48 ∷ 49 ∷ 57 ∷ 46 ∷ 48 ∷ 53 ∷ []

signed_parts_lem_example :
    (joined (signed_parts place_text) ≡ from_first_sign place_text)
    × All IsSigned (signed_parts place_text)
signed_parts_lem_example = signed_parts_lem place_text

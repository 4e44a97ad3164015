-- ===== src/Geo/Reading.antt =====
-- internal/geo: Read, which looks at a file's first twelve bytes and walks it by its kind. `none` where
-- the fuel of a walk runs out.
use gpb.Geo.Bytes.{
  Read, got, absent, unreadable, panicked, unfinished, ◌>>=◌, has_prefix, same_bytes, lt64,
  read_up_to,
}
use gpb.Geo.Boxes.{Box, read_box_header}
use gpb.Geo.Float64.{Float64}
use gpb.Geo.Heic.{exif_item_of_heic}
use gpb.Geo.Movie.{location_of_movie}
use gpb.Geo.Segments.{exif_of_jpeg, exif_of_png, exif_of_webp}
use gpb.Geo.Tiff.{Coordinates, from_tiff}
use gpb.Common.{
  ℕ, zero, suc, ◌+◌, ◌*◌, ◌^◌, ◌&&◌, ◌||◌, not, Option, none, some, List, [], ◌∷◌, ltb,
  if◌then◌else◌, length, take, drop,
}

abbrev pub tiff_read_limit : ℕ
tiff_read_limit = 4 * 2 ^ 20

-- The cases of Read's switch over the first twelve bytes.
pub data Format : Type 0 where
  jpeg tiff webp png isobmff other : Format

unfoldable pub format_of : List ℕ → Format
format_of head =
    if has_prefix (0xFF ∷ 0xD8 ∷ []) head
    then jpeg
    else if has_prefix (0x49 ∷ 0x49 ∷ 0x2A ∷ 0 ∷ []) head
        || has_prefix (0x4D ∷ 0x4D ∷ 0 ∷ 0x2A ∷ []) head
    then tiff
    else if has_prefix (0x52 ∷ 0x49 ∷ 0x46 ∷ 0x46 ∷ []) head
        && same_bytes (drop 8 head) (0x57 ∷ 0x45 ∷ 0x42 ∷ 0x50 ∷ [])
    then webp
    else if has_prefix (0x89 ∷ 0x50 ∷ 0x4E ∷ 0x47 ∷ 0x0D ∷ 0x0A ∷ 0x1A ∷ 0x0A ∷ []) head
    then png
    else if same_bytes (take 4 (drop 4 head)) (0x66 ∷ 0x74 ∷ 0x79 ∷ 0x70 ∷ [])
    then isobmff
    else other

module _ (fl : Float64) (file : List ℕ) where
  abbrev pub or_rest :
      Option (Read (Coordinates fl)) → Read (Coordinates fl) → Option (Read (Coordinates fl))
  or_rest rest (got coordinates) = some (got coordinates)
  or_rest rest absent = rest
  or_rest rest unreadable = some unreadable
  or_rest rest unfinished = some unfinished
  or_rest rest panicked = some panicked

  abbrev pub with_box :
      (Box → Option (Read (Coordinates fl))) → Read Box → Option (Read (Coordinates fl))
  with_box go_on (got box) = go_on box
  with_box go_on absent = some absent
  with_box go_on unreadable = some unreadable
  with_box go_on unfinished = some unfinished
  with_box go_on panicked = some panicked

  -- The loop of readISOBMFF.
  unfoldable pub boxes_from : ℕ → ℕ → Option (Read (Coordinates fl))
  unfolding read_box_header exif_item_of_heic location_of_movie
  boxes_from zero at = none
  boxes_from (suc fuel) at =
      if not (lt64 at (length file))
      then some absent
      else with_box
          (λ box.
            let rest = boxes_from fuel box.end in
            if same_bytes box.kind (0x6D ∷ 0x65 ∷ 0x74 ∷ 0x61 ∷ [])
            then or_rest rest (exif_item_of_heic fl file box)
            else if same_bytes box.kind (0x6D ∷ 0x6F ∷ 0x6F ∷ 0x76 ∷ [])
            then some (location_of_movie fl file box)
            else rest)
          (read_box_header file at (length file))

  unfoldable pub read_isobmff : Option (Read (Coordinates fl))
  unfolding boxes_from
  read_isobmff = boxes_from (length file + 2) 0

  abbrev pub tiff_of : Option (Read (List ℕ)) → Option (Read (Coordinates fl))
  tiff_of none = none
  tiff_of (some exif) = some (exif >>= from_tiff fl)

  unfoldable pub read_as : Format → Option (Read (Coordinates fl))
  unfolding read_isobmff exif_of_jpeg exif_of_webp exif_of_png
  read_as jpeg = tiff_of (exif_of_jpeg file)
  read_as tiff = tiff_of (some (got (read_up_to file 0 tiff_read_limit)))
  read_as webp = tiff_of (exif_of_webp file)
  read_as png = tiff_of (exif_of_png file)
  read_as isobmff = read_isobmff
  read_as other = some absent

  unfoldable pub read_location : Option (Read (Coordinates fl))
  unfolding read_as format_of
  read_location = if ltb (length file) 12 then some absent else read_as (format_of (take 12 file))

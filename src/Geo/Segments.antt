-- ===== src/Geo/Segments.antt =====
-- internal/geo/geo.go: the walks of a JPEG, a WebP and a PNG to their Exif. A `nil` answer of these is
-- the empty list, which fromTIFF takes for no location. `none` where the fuel, one unit for a segment,
-- runs out.
use gpb.Geo.Bytes.{
  Read, got, from_on, big_endian, little_endian, value_of, has_prefix, same_bytes, byte_at,
  read_up_to,
}
use gpb.Common.{
  ℕ, zero, suc, ◌+◌, ◌-◌, ◌%◌, Bool, ◌&&◌, ◌||◌, not, Option, none, some, List, [], ◌∷◌, ltb, leb,
  ◌==◌, nat_eq, if◌then◌else◌, length, take, drop,
}

abbrev pub exif_prefix : List ℕ
exif_prefix = 0x45 ∷ 0x78 ∷ 0x69 ∷ 0x66 ∷ 0 ∷ 0 ∷ []

-- io.ReadFull of so many bytes at a position.
abbrev pub bytes_at : List ℕ → ℕ → ℕ → Option (List ℕ)
bytes_at file at n = if leb (at + n) (length file) then some (take n (drop at file)) else none

abbrev pub has_no_payload : ℕ → Bool
has_no_payload marker = marker == 0xD8 || marker == 0x01 || leb 0xD0 marker && leb marker 0xD7

-- Where a segment leaves the walk: at the Exif or its absence, or on at a position.
pub data Segment : Type 0 where
  ends : Read (List ℕ) → Segment
  on_at : ℕ → Segment

abbrev pub jpeg_sized : List ℕ → ℕ → ℕ → Option (List ℕ) → Segment
jpeg_sized file at marker none = ends (got [])
jpeg_sized file at marker (some size) =
    let total = value_of big_endian size in
    let payload = read_up_to file (at + 4) (total - 2) in
    if ltb total 2
    then ends (got [])
    else if marker == 0xE1
    then if has_prefix exif_prefix payload
      then ends (from_on payload 6)
      else on_at (at + 4 + length payload)
    else on_at (at + 4 + (total - 2))

abbrev pub jpeg_marked : List ℕ → ℕ → Option (List ℕ) → Segment
jpeg_marked file at none = ends (got [])
jpeg_marked file at (some mark) =
    let marker = byte_at 1 mark in
    if not (byte_at 0 mark == 0xFF)
    then ends (got [])
    else if marker == 0xFF
    then on_at (at + 1)
    else if has_no_payload marker
    then on_at (at + 2)
    else if marker == 0xD9 || marker == 0xDA
    then ends (got [])
    else jpeg_sized file at marker (bytes_at file (at + 2) 2)

unfoldable pub jpeg_segment : List ℕ → ℕ → Segment
jpeg_segment file at = jpeg_marked file at (bytes_at file at 2)

abbrev pub trim_prefix : List ℕ → List ℕ
trim_prefix payload = if has_prefix exif_prefix payload then drop 6 payload else payload

abbrev pub webp_headed : List ℕ → ℕ → Option (List ℕ) → Segment
webp_headed file at none = ends (got [])
webp_headed file at (some header) =
    let size = value_of little_endian (drop 4 header) in
    if same_bytes (take 4 header) (0x45 ∷ 0x58 ∷ 0x49 ∷ 0x46 ∷ [])
    then ends (got (trim_prefix (read_up_to file (at + 8) size)))
    else on_at (at + 8 + (size + size % 2))

unfoldable pub webp_chunk : List ℕ → ℕ → Segment
webp_chunk file at = webp_headed file at (bytes_at file at 8)

abbrev pub png_headed : List ℕ → ℕ → Option (List ℕ) → Segment
png_headed file at none = ends (got [])
png_headed file at (some header) =
    let size = value_of big_endian (take 4 header) in
    let kind = drop 4 header in
    if same_bytes kind (0x65 ∷ 0x58 ∷ 0x49 ∷ 0x66 ∷ [])
    then ends (got (read_up_to file (at + 8) size))
    else if same_bytes kind (0x49 ∷ 0x45 ∷ 0x4E ∷ 0x44 ∷ [])
        || same_bytes kind (0x49 ∷ 0x44 ∷ 0x41 ∷ 0x54 ∷ [])
    then ends (got [])
    else on_at (at + 8 + (size + 4))

unfoldable pub png_chunk : List ℕ → ℕ → Segment
png_chunk file at = png_headed file at (bytes_at file at 8)

abbrev pub after_segment : (ℕ → Option (Read (List ℕ))) → Segment → Option (Read (List ℕ))
after_segment go_on (ends answer) = some answer
after_segment go_on (on_at next) = go_on next

-- The loop of each of the three.
unfoldable pub walk_segments : (ℕ → Segment) → ℕ → ℕ → Option (Read (List ℕ))
walk_segments segment zero at = none
walk_segments segment (suc fuel) at =
    after_segment (λ next. walk_segments segment fuel next) (segment at)

unfoldable pub exif_of_jpeg : List ℕ → Option (Read (List ℕ))
unfolding walk_segments jpeg_segment
exif_of_jpeg file = walk_segments (jpeg_segment file) (length file + 1) 2

unfoldable pub exif_of_webp : List ℕ → Option (Read (List ℕ))
unfolding walk_segments webp_chunk
exif_of_webp file = walk_segments (webp_chunk file) (length file + 1) 12

unfoldable pub exif_of_png : List ℕ → Option (Read (List ℕ))
unfolding walk_segments png_chunk
exif_of_png file = walk_segments (png_chunk file) (length file + 1) 8

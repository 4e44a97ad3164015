-- ===== src/Geo/Heic.antt =====
-- internal/geo/isobmff.go: the Exif item of a HEIC, found by id in iinf and located by iloc.
use gpb.Geo.Bytes.{
  Read, got, absent, unreadable, panicked, unfinished, ◌>>=◌, slice, from_on, big_endian, big, uint,
  same_bytes, byte_at, lt64, is_negative, read_up_to,
}
use gpb.Geo.Boxes.{Box, box_read_limit, child_of, body_of, meta_version_skip}
use gpb.Geo.Float64.{Float64}
use gpb.Geo.Tiff.{Coordinates, from_tiff}
use gpb.Common.{
  ℕ, zero, suc, ◌+◌, ◌/◌, ◌%◌, ◌^◌, Bool, true, false, ◌&&◌, ◌||◌, not, List, [], ◌∷◌, ltb, ◌==◌,
  nat_eq, if◌then◌else◌, length,
}

-- exifInfoEntry for an item id of so many bytes: the id, where the item's type is Exif.
unfoldable pub exif_info_as : ℕ → List ℕ → Read ℕ
exif_info_as width info = if ltb (length info) (width + 10) then absent else do
  rest ← from_on info 4
  id ← uint big_endian width rest
  kind ← slice info (width + 6) (width + 10)
  if same_bytes kind (0x45 ∷ 0x78 ∷ 0x69 ∷ 0x66 ∷ []) then got id else absent

unfoldable pub exif_info_entry : List ℕ → Read ℕ
unfolding exif_info_as
exif_info_entry info =
    if ltb (length info) 4
    then absent
    else if byte_at 0 info == 2
    then exif_info_as 2 info
    else if byte_at 0 info == 3
    then exif_info_as 4 info
    else absent

-- What one turn of exifItemID's loop comes to.
pub data ItemStep : Type 0 where
  is_exif : ℕ → ItemStep
  no_item : ItemStep
  next_at : ℕ → ItemStep

abbrev pub or_next : ℕ → Read ℕ → Read ItemStep
or_next at (got id) = got (is_exif id)
or_next at absent = got (next_at at)
or_next at unreadable = unreadable
or_next at unfinished = unfinished
or_next at panicked = panicked

unfoldable pub item_at : List ℕ → ℕ → Read ItemStep
unfolding exif_info_entry
item_at body at = if ltb (length body) (at + 8) then got no_item else do
  rest ← from_on body at
  size ← uint big_endian 4 rest
  kind ← slice body (at + 4) (at + 8)
  if not (same_bytes kind (0x69 ∷ 0x6E ∷ 0x66 ∷ 0x65 ∷ []))
        || ltb size 12
        || ltb (length body) (at + size)
      then got no_item
      else or_next (at + size) (slice body (at + 8) (at + size) >>= exif_info_entry)

abbrev pub after_item : (ℕ → Read ℕ) → ItemStep → Read ℕ
after_item go_on (is_exif id) = got id
after_item go_on no_item = absent
after_item go_on (next_at next) = go_on next

-- The loop: so many items left, the next at a position.
unfoldable pub items_from : List ℕ → ℕ → ℕ → Read ℕ
unfolding item_at
items_from body zero at = absent
items_from body (suc left) at = item_at body at >>= after_item λ next. items_from body left next

-- The loop after the count, which is so many bytes wide.
unfoldable pub counted_items : List ℕ → ℕ → Read ℕ
unfolding items_from
counted_items body width = do
  rest ← from_on body 4
  count ← uint big_endian width rest
  items_from body count (4 + width)

unfoldable pub exif_item_id : List ℕ → Read ℕ
unfolding counted_items
exif_item_id body =
    if ltb (length body) 6
    then absent
    else if byte_at 0 body == 0
    then counted_items body 2
    else counted_items body 4

pub record Cursor : Type 0 where
  pub at : ℕ
  pub failed : Bool

-- What a read of the cursor gives, and the cursor after it.
pub record Taken : Type 0 where
  pub value : ℕ
  pub cursor : Cursor

-- byteCursor.uint
unfoldable pub take_uint : List ℕ → ℕ → Cursor → Read Taken
take_uint body width cursor =
    if width == 0
    then got (record { value = 0; cursor = cursor })
    else if ltb (length body) (cursor.at + width) || ltb 8 width
    then got (record { value = 0; cursor = record { at = cursor.at; failed = true } })
    else slice body cursor.at (cursor.at + width) >>= λ bytes. got (record {
      value = big 0 bytes % 2 ^ 64;
      cursor = record { at = cursor.at + width; failed = cursor.failed };
    })

-- The widths an iloc box declares.
pub record Widths : Type 0 where
  pub version : ℕ
  pub offset_size : ℕ
  pub length_size : ℕ
  pub base_size : ℕ
  pub index_size : ℕ

abbrev pub has_method : ℕ → Bool
has_method version = version == 1 || version == 2

unfoldable pub widths_of : List ℕ → Widths
widths_of body = record {
  version = byte_at 0 body;
  offset_size = byte_at 4 body / 16;
  length_size = byte_at 4 body % 16;
  base_size = byte_at 5 body / 16;
  index_size = if has_method (byte_at 0 body) then byte_at 5 body % 16 else 0;
}

abbrev pub id_size : Widths → ℕ
id_size widths = if ltb widths.version 2 then 2 else 4

abbrev pub take_if : Bool → List ℕ → ℕ → Cursor → Read Taken
take_if present body width cursor =
    if present then take_uint body width cursor else got (record { value = 0; cursor = cursor })

-- What the extents of one item come to.
pub data Extents : Type 0 where
  ran_off : Extents
  extent : ℕ → ℕ → Extents
  none_here : Cursor → Extents

module _ (body : List ℕ) (widths : Widths) where
  unfoldable pub extents_from : Bool → ℕ → ℕ → Cursor → Read Extents
  unfolding take_uint
  extents_from wanted base zero cursor = got (none_here cursor)
  extents_from wanted base (suc left) cursor = do
    skipped ← take_if (ltb 0 widths.index_size) body widths.index_size cursor
    offset ← take_uint body widths.offset_size skipped.cursor
    size ← take_uint body widths.length_size offset.cursor
    let rest = extents_from wanted base left size.cursor
    if size.cursor.failed
        then got ran_off
        else if wanted
        then got (extent ((base + offset.value) % 2 ^ 64) size.value)
        else rest

  unfoldable pub extents_at : ℕ → Cursor → Read Extents
  unfolding extents_from
  extents_at item cursor = do
    id ← take_uint body (id_size widths) cursor
    method ← take_if (has_method widths.version) body 2 id.cursor
    reference ← take_uint body 2 method.cursor
    base ← take_uint body widths.base_size reference.cursor
    extents ← take_uint body 2 base.cursor
    extents_from (id.value % 2 ^ 32 == item && method.value % 16 == 0) base.value extents.value
        extents.cursor

  abbrev pub after_extents : (Cursor → Read (ℕ × ℕ)) → Extents → Read (ℕ × ℕ)
  after_extents go_on ran_off = absent
  after_extents go_on (extent offset size) = got (offset, size)
  after_extents go_on (none_here after) = if after.failed then absent else go_on after

  -- The loop of extentOf: the offset and the length.
  unfoldable pub located_from : ℕ → ℕ → Cursor → Read (ℕ × ℕ)
  unfolding extents_at
  located_from item zero cursor = absent
  located_from item (suc left) cursor =
      extents_at item cursor >>= after_extents λ after. located_from item left after

unfoldable pub extent_of : ℕ → List ℕ → Read (ℕ × ℕ)
unfolding located_from widths_of
extent_of item body =
    if ltb (length body) 8
    then absent
    else take_uint body (id_size (widths_of body)) (record { at = 6; failed = false }) >>= λ count.
        located_from body (widths_of body) item count.value count.cursor

module _ (fl : Float64) where
  -- The ExifDataBlock at an extent. The four bytes that a shorter block lacks are in its buffer, and
  -- whatever they hold the TIFF would begin behind the block.
  unfoldable pub exif_block : List ℕ → ℕ × ℕ → Read (Coordinates fl)
  unfolding from_tiff
  exif_block file place =
      let block = read_up_to file (place.0) (place.1) in
      if lt64 box_read_limit (place.1) || lt64 (place.1) 4
      then absent
      else if is_negative (place.0)
      then unreadable
      else if ltb (length block) 4
      then absent
      else do
        head ← slice block 0 4
        skip ← uint big_endian 4 head
        if ltb (length block) (4 + skip) then absent else from_on block (4 + skip) >>= from_tiff fl

  unfoldable pub exif_item_of_heic : List ℕ → Box → Read (Coordinates fl)
  unfolding exif_block exif_item_id extent_of child_of body_of meta_version_skip
  exif_item_of_heic file meta = do
    skip ← meta_version_skip file meta
    iinf ← child_of file meta skip (0x69 ∷ 0x69 ∷ 0x6E ∷ 0x66 ∷ [])
    infos ← body_of file iinf
    item ← exif_item_id infos
    iloc ← child_of file meta skip (0x69 ∷ 0x6C ∷ 0x6F ∷ 0x63 ∷ [])
    locations ← body_of file iloc
    place ← extent_of item locations
    exif_block file place

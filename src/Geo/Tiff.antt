-- ===== src/Geo/Tiff.antt =====
-- internal/geo/geo.go: the GPS tags of a TIFF, and what is plausible.
use gpb.Geo.Bytes.{
  Read, got, absent, unreadable, panicked, unfinished, ◌>>=◌, slice, from_on, ByteOrder, big_endian,
  little_endian, uint, same_bytes,
}
use gpb.Geo.Float64.{Float64}
use gpb.Common.{
  ℕ, zero, suc, ◌+◌, ◌*◌, Bool, ◌&&◌, ◌||◌, not, List, [], ◌∷◌, ltb, leb, ◌==◌, nat_eq,
  if◌then◌else◌, length,
}

pub record Coordinates (fl : Float64) : Type 0 where
  pub latitude : fl.F
  pub longitude : fl.F

-- An entry of an IFD.
pub record Entry : Type 0 where
  pub tag : ℕ
  pub kind : ℕ
  pub count : ℕ
  pub value : List ℕ

abbrev pub tag_gps_info : ℕ
tag_gps_info = 0x8825

-- typeSizes, with the zero value for a type that is not in the map.
unfoldable pub type_size : ℕ → ℕ
type_size kind =
    if kind == 1 || kind == 2 || kind == 7
    then 1
    else if kind == 3
    then 2
    else if kind == 4 || kind == 9
    then 4
    else if kind == 5 || kind == 10
    then 8
    else 0

module _ (order : ByteOrder) (bytes : List ℕ) where
  -- The value of the entry at a position: none where it lies out of the bytes.
  unfoldable pub entry_value : ℕ → ℕ → Read (List ℕ)
  entry_value at size = if leb size 4 then slice bytes (at + 8) (at + 12) else do
    rest ← from_on bytes (at + 8)
    offset ← uint order 4 rest
    if ltb (length bytes) (offset + size) then absent else slice bytes offset (offset + size)

  unfoldable pub entry_at : ℕ → Read Entry
  unfolding entry_value type_size
  entry_at at = do
    rest ← from_on bytes at
    tag ← uint order 2 rest
    after_tag ← from_on bytes (at + 2)
    kind ← uint order 2 after_tag
    after_kind ← from_on bytes (at + 4)
    count ← uint order 4 after_kind
    value ← entry_value at (type_size kind * count)
    got (record { tag = tag; kind = kind; count = count; value = value })

  -- What an entry adds to the list: nothing where its value lies out of the bytes.
  abbrev pub with_entry : Read Entry → Read (List Entry) → Read (List Entry)
  with_entry (got entry) rest = rest >>= λ entries. got (entry ∷ entries)
  with_entry absent rest = rest
  with_entry unreadable rest = unreadable
  with_entry unfinished rest = unfinished
  with_entry panicked rest = panicked

  -- The loop of entries: so many entries left, the next at a position.
  unfoldable pub entries_from : ℕ → ℕ → Read (List Entry)
  unfolding entry_at
  entries_from zero at = got []
  entries_from (suc left) at =
      let rest = entries_from left (at + 12) in
      if ltb (length bytes) (at + 12) then got [] else with_entry (entry_at at) rest

  unfoldable pub entries : ℕ → Read (List Entry)
  unfolding entries_from
  entries ifd =
      if ltb (length bytes) (ifd + 2)
      then got []
      else do rest ← from_on bytes ifd; count ← uint order 2 rest; entries_from count (ifd + 2)

  abbrev pub first_with : ℕ → List Entry → Read Entry
  first_with tag [] = absent
  first_with tag (entry ∷ rest) = if entry.tag == tag then got entry else first_with tag rest

  unfoldable pub find_entry : ℕ → ℕ → Read Entry
  unfolding entries
  find_entry ifd tag = entries ifd >>= first_with tag

  unfoldable pub pointer_in : ℕ → ℕ → Read ℕ
  unfolding find_entry
  pointer_in ifd tag = do
    field ← find_entry ifd tag
    if not (field.kind == 4) || not (field.count == 1) then absent else uint order 4 field.value

  module _ (fl : Float64) where
    -- A degree, minute or second: the i-th quotient of the value.
    unfoldable pub part_at : List ℕ → ℕ → Read fl.F
    part_at value i = do
      upper ← from_on value (i * 8)
      numerator ← uint order 4 upper
      lower ← from_on value (i * 8 + 4)
      denominator ← uint order 4 lower
      if denominator == 0
          then if numerator == 0 then got (fl.of_nat 0) else absent
          else got (fl.divide (fl.of_nat numerator) (fl.of_nat denominator))

    abbrev pub signed_by : ℕ → Read Entry → fl.F → Read fl.F
    signed_by negative_ref (got ref) angle =
        (if leb 1 (length ref.value) then slice ref.value 0 1 else got []) >>= λ first.
        got (if same_bytes first (negative_ref ∷ []) then fl.negate angle else angle)
    signed_by negative_ref absent angle = got angle
    signed_by negative_ref unreadable angle = unreadable
    signed_by negative_ref unfinished angle = unfinished
    signed_by negative_ref panicked angle = panicked

    unfoldable pub angle_in : ℕ → ℕ → ℕ → ℕ → Read fl.F
    unfolding find_entry part_at
    angle_in ifd tag ref_tag negative_ref = do
      field ← find_entry ifd tag
      if not (field.kind == 5) || ltb field.count 3 || ltb (length field.value) 24
          then absent
          else do
            degrees ← part_at field.value 0
            minutes ← part_at field.value 1
            seconds ← part_at field.value 2
            signed_by negative_ref (find_entry ifd ref_tag) (
                fl.add (fl.add degrees (fl.divide minutes (fl.of_nat 60)))
                  (fl.divide seconds (fl.of_nat 3600)))

module _ (fl : Float64) where
  -- One side of plausible's comparisons; a NaN is outside nothing, as in the code.
  abbrev pub outside : fl.F → ℕ → Bool
  outside angle limit =
      fl.less angle (fl.negate (fl.of_nat limit)) || fl.less (fl.of_nat limit) angle

  unfoldable pub plausible : Coordinates fl → Read (Coordinates fl)
  plausible c =
      if fl.equal c.latitude (fl.of_nat 0) && fl.equal c.longitude (fl.of_nat 0)
        || outside c.latitude 90
        || outside c.longitude 180
      then absent
      else got c

  -- fromTIFF, once the byte order is known.
  unfoldable pub located_in : ByteOrder → List ℕ → Read (Coordinates fl)
  unfolding pointer_in angle_in plausible
  located_in order bytes = do
    magic_bytes ← slice bytes 2 4
    magic ← uint order 2 magic_bytes
    if not (magic == 42) then absent else do
      ifd_bytes ← slice bytes 4 8
      ifd ← uint order 4 ifd_bytes
      gps ← pointer_in order bytes ifd tag_gps_info
      latitude ← angle_in order bytes fl gps 2 1 0x53
      longitude ← angle_in order bytes fl gps 4 3 0x57
      plausible (record { latitude = latitude; longitude = longitude })

  unfoldable pub from_tiff : List ℕ → Read (Coordinates fl)
  unfolding located_in
  from_tiff bytes = if ltb (length bytes) 8 then absent else do
    mark ← slice bytes 0 2
    if same_bytes mark (0x49 ∷ 0x49 ∷ [])
        then located_in little_endian bytes
        else if same_bytes mark (0x4d ∷ 0x4d ∷ [])
        then located_in big_endian bytes
        else absent

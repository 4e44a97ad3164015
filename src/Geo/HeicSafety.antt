-- ===== src/Geo/HeicSafety.antt =====
-- internal/geo/isobmff.go: where the readers of a HEIC's item tables index within bounds.
use gpb.Geo.Bytes.{
  Read, got, absent, unreadable, panicked, unfinished, ◌>>=◌, slice, from_on, big_endian, uint,
  same_bytes, byte_at, panics, lt64, is_negative, read_up_to,
}
use gpb.Geo.Boxes.{box_read_limit}
use gpb.Geo.Ensures.{
  Ensures, Finishes, Yields, Yields-bind, Ensures-Finishes, Returns, Ensures-if, Ensures-bind,
  Ensures-panics, slice-Ensures, from_on-Ensures, uint-Ensures, number_at-Ensures,
}
use gpb.Geo.Float64.{Float64}
use gpb.Geo.Heic.{
  exif_info_as, exif_info_entry, ItemStep, is_exif, no_item, next_at, or_next, after_item, item_at,
  items_from, counted_items, exif_item_id, Cursor, Taken, take_uint, Widths, take_if, has_method,
  id_size, widths_of, Extents, ran_off, extent, none_here, extents_from, extents_at, after_extents,
  located_from, extent_of, exif_block,
}
use gpb.Geo.TiffSafety.{IsPlausible, from_tiff-Ensures}
use gpb.Common.{
  if◌then◌else◌, ℕ, zero, suc, ◌+◌, ◌-◌, ◌≤◌, ◌<◌, Bool, true, false, ◌&&◌, ◌||◌, not, ◌≡◌, inl,
  inr, List, ltb, leb, ◌==◌, nat_eq, length, length-drop, arith, ltb→le, Bool-cases,
}

exif_info_as-Returns : (width : ℕ) (info : List ℕ) → Returns (exif_info_as width info)
unfolding exif_info_as Ensures
exif_info_as-Returns width info =
    Ensures-if (λ id. Unit) (ltb (length info) (width + 10)) absent _ (λ e. tt)
      (λ e.
        number_at-Ensures (λ id. Unit) big_endian width 4 info _ (ground (arith, e))
          (λ id.
            Ensures-bind (λ kind. length kind ≡ width + 10 - (width + 6)) (λ id. Unit)
              (slice info (width + 6) (width + 10)) _
              (slice-Ensures info (width + 6) (width + 10) (omega arith) (ground (arith, e)))
              (λ kind l.
                Ensures-if (λ id. Unit) (same_bytes kind _) (got id) absent (λ i. tt) (λ i. tt))))

exif_info_entry-Returns : (info : List ℕ) → Returns (exif_info_entry info)
unfolding exif_info_entry Ensures
exif_info_entry-Returns info =
    Ensures-if (λ id. Unit) (ltb (length info) 4) absent _ (λ e. tt)
      (λ e.
        Ensures-if (λ id. Unit) (byte_at 0 info == 2) _ _ (λ i. exif_info_as-Returns 2 info)
          (λ i.
            Ensures-if (λ id. Unit) (byte_at 0 info == 3) _ absent
              (λ j. exif_info_as-Returns 4 info) (λ j. tt)))

or_next-Returns : (at : ℕ) (id : Read ℕ) → Returns id → Returns (or_next at id)
unfolding Ensures
or_next-Returns at (got id) h = tt
or_next-Returns at absent h = tt
or_next-Returns at unreadable h = tt
or_next-Returns at unfinished h = elim h [ ]
or_next-Returns at panicked h = h

item_at-Returns : (body : List ℕ) (at : ℕ) → Returns (item_at body at)
unfolding item_at Ensures
item_at-Returns body at =
    Ensures-if (λ step. Unit) (ltb (length body) (at + 8)) (got no_item) _ (λ e. tt)
      (λ e.
        number_at-Ensures (λ step. Unit) big_endian 4 at body _ (ground (arith, e))
          (λ size.
            Ensures-bind (λ kind. length kind ≡ at + 8 - (at + 4)) (λ step. Unit)
              (slice body (at + 4) (at + 8)) _
              (slice-Ensures body (at + 4) (at + 8) (omega arith) (ground (arith, e)))
              (λ kind l.
                Ensures-if (λ step. Unit) (_ || ltb size 12 || ltb (length body) (at + size))
                  (got no_item) _ (λ i. tt)
                  (λ i. or_next-Returns (at + size) _ (
                    Ensures-bind (λ info. length info ≡ at + size - (at + 8)) (λ id. Unit)
                      (slice body (at + 8) (at + size)) _
                      (slice-Ensures body (at + 8) (at + size) (ground (arith, i))
                        (ground (arith, i)))
                      (λ info l. exif_info_entry-Returns info))))))

after_item-Returns :
    (go_on : ℕ → Read ℕ)
    → ((next : ℕ) → Returns (go_on next))
    → (step : ItemStep) → Returns (after_item go_on step)
unfolding Ensures
after_item-Returns go_on h (is_exif id) = tt
after_item-Returns go_on h no_item = tt
after_item-Returns go_on h (next_at next) = h next

items_from-Returns : (body : List ℕ) (left at : ℕ) → Returns (items_from body left at)
unfolding items_from Ensures
items_from-Returns body zero at = tt
items_from-Returns body (suc left) at =
    Ensures-bind (λ step. Unit) (λ id. Unit) (item_at body at) _ (item_at-Returns body at)
      (λ step u. after_item-Returns _ (λ next. items_from-Returns body left next) step)

counted_items-Returns :
    (body : List ℕ) (width : ℕ) → 4 + width ≤ length body → Returns (counted_items body width)
unfolding counted_items Ensures
counted_items-Returns body width h =
    number_at-Ensures (λ id. Unit) big_endian width 4 body _ h
      (λ count. items_from-Returns body count (4 + width))

counted_items-panics :
    (body : List ℕ) (width : ℕ)
    → 4 ≤ length body
    → length body < 4 + width
    → panics (counted_items body width) ≡ true
unfolding counted_items uint
counted_items-panics body width h k = ground (arith, h, k, length-drop 4 body)

-- exifItemID ends, with an answer or in that panic.
Finishes-if : (c : Bool) (r s : Read ℕ) → Finishes r → Finishes s → Finishes (if c then r else s)
Finishes-if true r s h k = h
Finishes-if false r s h k = k

counted_items-Finishes : (body : List ℕ) (width : ℕ) → Finishes (counted_items body width)
unfolding counted_items Yields uint
counted_items-Finishes body width =
    Yields-bind (λ id. Unit) (from_on body 4) _ (ground arith)
      (λ rest.
        Yields-bind (λ id. Unit) (uint big_endian width rest) _ (ground arith)
          (λ count.
            Ensures-Finishes (λ id. Unit) (items_from body count (4 + width))
              (items_from-Returns body count (4 + width))))

pub exif_item_id-Finishes : (body : List ℕ) → Finishes (exif_item_id body)
unfolding exif_item_id Yields
exif_item_id-Finishes body = Finishes-if (ltb (length body) 6) absent _ tt (
    Finishes-if (byte_at 0 body == 0) (counted_items body 2) (counted_items body 4)
      (counted_items-Finishes body 2) (counted_items-Finishes body 4))

-- exifItemID panics on a body of six or seven bytes whose version is not zero, and on no other.
pub exif_item_id-panics :
    (body : List ℕ)
    → panics (exif_item_id body)
      ≡ (leb 6 (length body) && ltb (length body) 8 && not (byte_at 0 body == 0))
unfolding exif_item_id
exif_item_id-panics body = elim (Bool-cases (ltb (length body) 6)) [
  | inl e ↦ ground (arith, e)
  | inr e ↦ elim (Bool-cases (byte_at 0 body == 0)) [
    | inl i ↦ ground (
      arith,
      e,
      i,
      Ensures-panics (λ id. Unit) (counted_items body 2)
          (counted_items-Returns body 2 (ground (arith, e))),
    )
    | inr i ↦ elim (Bool-cases (ltb (length body) 8)) [
      | inl j ↦
          ground
            (arith, e, i, j, counted_items-panics body 4 (ground (arith, e)) (ground (arith, j)))
      | inr j ↦ ground (
        arith,
        e,
        i,
        j,
        Ensures-panics (λ id. Unit) (counted_items body 4)
            (counted_items-Returns body 4 (ground (arith, j))),
      )
    ]
  ]
]

take_uint-Returns :
    (body : List ℕ) (width : ℕ) (cursor : Cursor) → Returns (take_uint body width cursor)
unfolding take_uint Ensures
take_uint-Returns body width cursor =
    Ensures-if (λ taken. Unit) (width == 0) (got _) _ (λ e. tt)
      (λ e.
        Ensures-if (λ taken. Unit) (ltb (length body) (cursor.at + width) || ltb 8 width) (got _) _
          (λ i. tt)
          (λ i.
            Ensures-bind (λ bytes. length bytes ≡ cursor.at + width - cursor.at) (λ taken. Unit)
              (slice body cursor.at (cursor.at + width)) _
              (slice-Ensures body cursor.at (cursor.at + width) (omega arith) (ground (arith, i)))
              (λ bytes l. tt)))

-- What follows a read of the cursor.
take_uint-then {ℓ} :
    {A : Type ℓ} (body : List ℕ) (width : ℕ) (cursor : Cursor) (f : Taken → Read A)
    → ((taken : Taken) → Returns (f taken))
    → Returns (take_uint body width cursor >>= f)
take_uint-then {A} body width cursor f h =
    Ensures-bind (λ (taken : Taken). Unit) (λ (a : A). Unit) (take_uint body width cursor) f
      (take_uint-Returns body width cursor) (λ taken u. h taken)

take_if-then {ℓ} :
    {A : Type ℓ} (present : Bool) (body : List ℕ) (width : ℕ) (cursor : Cursor) (f : Taken → Read A)
    → ((taken : Taken) → Returns (f taken))
    → Returns (take_if present body width cursor >>= f)
unfolding Ensures
take_if-then true body width cursor f h = take_uint-then body width cursor f h
take_if-then false body width cursor f h = h _

module _ (body : List ℕ) (widths : Widths) where
  extents_from-Returns :
      (wanted : Bool) (base left : ℕ) (cursor : Cursor)
      → Returns (extents_from body widths wanted base left cursor)
  unfolding extents_from Ensures
  extents_from-Returns wanted base zero cursor = tt
  extents_from-Returns wanted base (suc left) cursor =
      take_if-then (ltb 0 widths.index_size) body widths.index_size cursor _ (λ skipped.
        take_uint-then body widths.offset_size skipped.cursor _ (λ offset.
          take_uint-then body widths.length_size offset.cursor _ (λ size.
            Ensures-if (λ extents. Unit) size.cursor.failed (got ran_off) _ (λ e. tt)
              (λ e.
                Ensures-if (λ extents. Unit) wanted (got _) _ (λ i. tt)
                  (λ i. extents_from-Returns wanted base left size.cursor)))))

  extents_at-Returns : (item : ℕ) (cursor : Cursor) → Returns (extents_at body widths item cursor)
  unfolding extents_at
  extents_at-Returns item cursor = take_uint-then body (id_size widths) cursor _ (λ id.
      take_if-then (has_method widths.version) body 2 id.cursor _ (λ method.
        take_uint-then body 2 method.cursor _ (λ reference.
          take_uint-then body widths.base_size reference.cursor _ (λ base.
            take_uint-then body 2 base.cursor _
              (λ extents. extents_from-Returns _ base.value extents.value extents.cursor)))))

  after_extents-Returns :
      (go_on : Cursor → Read (ℕ × ℕ))
      → ((cursor : Cursor) → Returns (go_on cursor))
      → (extents : Extents) → Returns (after_extents body widths go_on extents)
  unfolding Ensures
  after_extents-Returns go_on h ran_off = tt
  after_extents-Returns go_on h (extent offset size) = tt
  after_extents-Returns go_on h (none_here after) =
      Ensures-if (λ place. Unit) after.failed absent (go_on after) (λ e. tt) (λ e. h after)

  located_from-Returns :
      (item left : ℕ) (cursor : Cursor) → Returns (located_from body widths item left cursor)
  unfolding located_from Ensures
  located_from-Returns item zero cursor = tt
  located_from-Returns item (suc left) cursor =
      Ensures-bind (λ extents. Unit) (λ place. Unit) (extents_at body widths item cursor) _
        (extents_at-Returns item cursor)
        (λ extents u.
          after_extents-Returns _ (λ after. located_from-Returns item left after) extents)

pub extent_of-Returns : (item : ℕ) (body : List ℕ) → Returns (extent_of item body)
unfolding extent_of Ensures
extent_of-Returns item body =
    Ensures-if (λ place. Unit) (ltb (length body) 8) absent _ (λ e. tt)
      (λ e.
        take_uint-then body (id_size (widths_of body)) _ _
          (λ count. located_from-Returns body (widths_of body) item count.value count.cursor))

pub exif_block-Ensures :
    (fl : Float64) (file : List ℕ) (place : ℕ × ℕ)
    → Ensures (IsPlausible fl) (exif_block fl file place)
unfolding exif_block Ensures
exif_block-Ensures fl file place =
    let block = read_up_to file (place.0) (place.1) in
    Ensures-if (IsPlausible fl) (lt64 box_read_limit (place.1) || lt64 (place.1) 4) absent _
      (λ e. tt)
      (λ e.
        Ensures-if (IsPlausible fl) (is_negative (place.0)) unreadable _ (λ i. tt)
          (λ i.
            Ensures-if (IsPlausible fl) (ltb (length block) 4) absent _ (λ j. tt)
              (λ j.
                Ensures-bind (λ head. length head ≡ 4) (IsPlausible fl) (slice block 0 4) _
                  (slice-Ensures block 0 4 (omega arith) (ltb→le (length block) 4 j))
                  (λ head l.
                    Ensures-bind (λ skip. Unit) (IsPlausible fl) (uint big_endian 4 head) _
                      (uint-Ensures big_endian 4 head (omega (arith, l)))
                      (λ skip u.
                        Ensures-if (IsPlausible fl) (ltb (length block) (4 + skip)) absent _
                          (λ k. tt)
                          (λ k.
                            Ensures-bind (λ rest. length rest ≡ length block - (4 + skip))
                              (IsPlausible fl) (from_on block (4 + skip)) _
                              (from_on-Ensures block (4 + skip)
                                (ltb→le (length block) (4 + skip) k))
                              (λ rest l. from_tiff-Ensures fl rest)))))))

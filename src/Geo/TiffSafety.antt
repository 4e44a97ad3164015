-- ===== src/Geo/TiffSafety.antt =====
-- internal/geo/geo.go: fromTIFF indexes its bytes only within bounds.
use gpb.Geo.Bytes.{
  Read, got, absent, unreadable, panicked, unfinished, slice, ByteOrder, big_endian, little_endian,
  uint, same_bytes,
}
use gpb.Geo.Ensures.{
  Ensures, Ensures-map, Ensures-if, Ensures-bind, slice-Ensures, uint-Ensures, number_at-Ensures,
}
use gpb.Geo.Float64.{Float64}
use gpb.Geo.Tiff.{
  Coordinates, Entry, type_size, entry_value, entry_at, with_entry, entries_from, entries,
  first_with, find_entry, pointer_in, part_at, signed_by, angle_in, outside, plausible, located_in,
  from_tiff, tag_gps_info,
}
use gpb.Common.{
  ℕ, zero, suc, ◌+◌, ◌-◌, ◌*◌, ◌≤◌, Bool, false, ◌&&◌, ◌||◌, not, ◌≡◌, List, [], ◌∷◌, ltb, leb,
  ◌==◌, nat_eq, if◌then◌else◌, length, All, arith, ltb→le,
}

abbrev pub HasValue : Entry → Type 0
HasValue entry = 4 ≤ length entry.value

module _ (order : ByteOrder) (bytes : List ℕ) where
  entry_value-Ensures :
      (at size : ℕ)
      → at + 12 ≤ length bytes
      → Ensures (λ value. 4 ≤ length value) (entry_value order bytes at size)
  unfolding entry_value Ensures
  entry_value-Ensures at size h =
      Ensures-if (λ value. 4 ≤ length value) (leb size 4) (slice bytes (at + 8) (at + 12)) _
        (λ e.
          Ensures-map (λ part. length part ≡ at + 12 - (at + 8)) (λ value. 4 ≤ length value)
            (slice bytes (at + 8) (at + 12)) (λ part l. omega (arith, l))
            (slice-Ensures bytes (at + 8) (at + 12) (omega arith) h))
        (λ e.
          number_at-Ensures (λ value. 4 ≤ length value) order 4 (at + 8) bytes
            (λ offset.
              if ltb (length bytes) (offset + size)
              then absent
              else slice bytes offset (offset + size))
            (omega (arith, h))
            (λ offset.
              Ensures-if (λ value. 4 ≤ length value) (ltb (length bytes) (offset + size)) absent
                (slice bytes offset (offset + size)) (λ o. tt)
                (λ o.
                  Ensures-map (λ part. length part ≡ offset + size - offset)
                    (λ value. 4 ≤ length value) (slice bytes offset (offset + size))
                    (λ part l. ground (arith, l, e))
                    (slice-Ensures bytes offset (offset + size) (omega arith)
                      (ltb→le (length bytes) (offset + size) o)))))

  entry_at-Ensures : (at : ℕ) → at + 12 ≤ length bytes → Ensures HasValue (entry_at order bytes at)
  unfolding entry_at Ensures
  entry_at-Ensures at h = number_at-Ensures HasValue order 2 at bytes _ (omega (arith, h)) (λ tag.
      number_at-Ensures HasValue order 2 (at + 2) bytes _ (omega (arith, h)) (λ kind.
        number_at-Ensures HasValue order 4 (at + 4) bytes _ (omega (arith, h)) (λ count.
          Ensures-bind (λ value. 4 ≤ length value) HasValue
            (entry_value order bytes at (type_size kind * count)) _
            (entry_value-Ensures at (type_size kind * count) h) (λ value v. v))))

  with_entry-Ensures :
      (entry : Read Entry) (rest : Read (List Entry))
      → Ensures HasValue entry
      → Ensures (All HasValue) rest
      → Ensures (All HasValue) (with_entry order bytes entry rest)
  unfolding Ensures
  with_entry-Ensures (got entry) rest h k =
      Ensures-bind (All HasValue) (All HasValue) rest _ k (λ entries all. (h, all))
  with_entry-Ensures absent rest h k = k
  with_entry-Ensures unreadable rest h k = tt
  with_entry-Ensures unfinished rest h k = elim h [ ]
  with_entry-Ensures panicked rest h k = elim h [ ]

  entries_from-Ensures : (left at : ℕ) → Ensures (All HasValue) (entries_from order bytes left at)
  unfolding entries_from Ensures
  entries_from-Ensures zero at = tt
  entries_from-Ensures (suc left) at =
      Ensures-if (All HasValue) (ltb (length bytes) (at + 12)) (got []) _ (λ e. tt)
        (λ e.
          with_entry-Ensures (entry_at order bytes at) (entries_from order bytes left (at + 12))
            (entry_at-Ensures at (ltb→le (length bytes) (at + 12) e))
            (entries_from-Ensures left (at + 12)))

  entries-Ensures : (ifd : ℕ) → Ensures (All HasValue) (entries order bytes ifd)
  unfolding entries Ensures
  entries-Ensures ifd =
      Ensures-if (All HasValue) (ltb (length bytes) (ifd + 2)) (got []) _ (λ e. tt)
        (λ e.
          number_at-Ensures (All HasValue) order 2 ifd bytes _ (ltb→le (length bytes) (ifd + 2) e)
            (λ count. entries_from-Ensures count (ifd + 2)))

  first_with-Ensures :
      (tag : ℕ) (found : List Entry)
      → All HasValue found
      → Ensures HasValue (first_with order bytes tag found)
  unfolding Ensures
  first_with-Ensures tag [] h = tt
  first_with-Ensures tag (entry ∷ found) h =
      Ensures-if HasValue (entry.tag == tag) (got entry) _ (λ e. h.0)
        (λ e. first_with-Ensures tag found h.1)

  find_entry-Ensures : (ifd tag : ℕ) → Ensures HasValue (find_entry order bytes ifd tag)
  unfolding find_entry
  find_entry-Ensures ifd tag =
      Ensures-bind (All HasValue) HasValue (entries order bytes ifd) _ (entries-Ensures ifd)
        (λ found all. first_with-Ensures tag found all)

  pointer_in-Ensures : (ifd tag : ℕ) → Ensures (λ pointer. Unit) (pointer_in order bytes ifd tag)
  unfolding pointer_in Ensures
  pointer_in-Ensures ifd tag =
      Ensures-bind HasValue (λ pointer. Unit) (find_entry order bytes ifd tag) _
        (find_entry-Ensures ifd tag)
        (λ field h.
          Ensures-if (λ pointer. Unit) (not (field.kind == 4) || not (field.count == 1)) absent
            (uint order 4 field.value) (λ e. tt) (λ e. uint-Ensures order 4 field.value h))

  module _ (fl : Float64) where
    part_at-Ensures :
        (value : List ℕ) (i : ℕ)
        → i * 8 + 8 ≤ length value
        → Ensures (λ part. Unit) (part_at order bytes fl value i)
    unfolding part_at Ensures
    part_at-Ensures value i h =
        number_at-Ensures (λ part. Unit) order 4 (i * 8) value _ (omega (arith, h))
          (λ numerator.
            number_at-Ensures (λ part. Unit) order 4 (i * 8 + 4) value _ (omega (arith, h))
              (λ denominator.
                Ensures-if (λ part. Unit) (denominator == 0) _ _
                  (λ e.
                    Ensures-if (λ part. Unit) (numerator == 0) (got _) absent (λ e. tt) (λ e. tt))
                  (λ e. tt)))

    signed_by-Ensures :
        (negative_ref : ℕ) (ref : Read Entry) (angle : fl.F)
        → Ensures HasValue ref
        → Ensures (λ signed. Unit) (signed_by order bytes fl negative_ref ref angle)
    unfolding Ensures
    signed_by-Ensures negative_ref (got ref) angle h =
        Ensures-bind (λ first. Unit) (λ signed. Unit)
          (if leb 1 (length ref.value) then slice ref.value 0 1 else got []) _
          (Ensures-if (λ first. Unit) (leb 1 (length ref.value)) (slice ref.value 0 1) (got [])
            (λ e.
              Ensures-map (λ first. length first ≡ 1) (λ first. Unit) (slice ref.value 0 1)
                (λ first l. tt) (slice-Ensures ref.value 0 1 (omega arith) (omega (arith, h))))
            (λ e. tt))
          (λ first u. tt)
    signed_by-Ensures negative_ref absent angle h = tt
    signed_by-Ensures negative_ref unreadable angle h = tt
    signed_by-Ensures negative_ref unfinished angle h = elim h [ ]
    signed_by-Ensures negative_ref panicked angle h = elim h [ ]

    angle_in-Ensures :
        (ifd tag ref_tag negative_ref : ℕ)
        → Ensures (λ angle. Unit) (angle_in order bytes fl ifd tag ref_tag negative_ref)
    unfolding angle_in Ensures
    angle_in-Ensures ifd tag ref_tag negative_ref =
        Ensures-bind HasValue (λ angle. Unit) (find_entry order bytes ifd tag) _
          (find_entry-Ensures ifd tag)
          (λ field h.
            Ensures-if (λ angle. Unit)
              (not (field.kind == 5) || ltb field.count 3 || ltb (length field.value) 24) absent _
              (λ e. tt)
              (λ e.
                Ensures-bind (λ part. Unit) (λ angle. Unit) (part_at order bytes fl field.value 0) _
                  (part_at-Ensures field.value 0 (ground (arith, e)))
                  (λ degrees u.
                    Ensures-bind (λ part. Unit) (λ angle. Unit)
                      (part_at order bytes fl field.value 1) _
                      (part_at-Ensures field.value 1 (ground (arith, e)))
                      (λ minutes v.
                        Ensures-bind (λ part. Unit) (λ angle. Unit)
                          (part_at order bytes fl field.value 2) _
                          (part_at-Ensures field.value 2 (ground (arith, e)))
                          (λ seconds w.
                            signed_by-Ensures negative_ref (find_entry order bytes ifd ref_tag) _
                              (find_entry-Ensures ifd ref_tag))))))

or_false : (a b c : Bool) → (a || b || c) ≡ false → (a ≡ false) × (b ≡ false) × (c ≡ false)
or_false a b c h = ground (arith, h)

module _ (fl : Float64) where
  -- Within the ranges of a latitude and a longitude, and not both of them zero.
  abbrev pub IsPlausible : Coordinates fl → Type 0
  IsPlausible c =
      ((fl.equal c.latitude (fl.of_nat 0) && fl.equal c.longitude (fl.of_nat 0)) ≡ false)
      × (outside fl c.latitude 90 ≡ false)
      × (outside fl c.longitude 180 ≡ false)

  pub plausible-Ensures : (c : Coordinates fl) → Ensures IsPlausible (plausible fl c)
  unfolding plausible Ensures
  plausible-Ensures c = Ensures-if IsPlausible _ absent (got c) (λ e. tt) (λ e. or_false _ _ _ e)

  located_in-Ensures :
      (order : ByteOrder) (bytes : List ℕ)
      → 8 ≤ length bytes
      → Ensures IsPlausible (located_in fl order bytes)
  unfolding located_in Ensures
  located_in-Ensures order bytes h =
      Ensures-bind (λ part. length part ≡ 2) IsPlausible (slice bytes 2 4) _
        (slice-Ensures bytes 2 4 (omega arith) (omega (arith, h)))
        (λ magic_bytes l.
          Ensures-bind (λ magic. Unit) IsPlausible (uint order 2 magic_bytes) _
            (uint-Ensures order 2 magic_bytes (omega (arith, l)))
            (λ magic u.
              Ensures-if IsPlausible (not (magic == 42)) absent _ (λ e. tt)
                (λ e.
                  Ensures-bind (λ part. length part ≡ 4) IsPlausible (slice bytes 4 8) _
                    (slice-Ensures bytes 4 8 (omega arith) h)
                    (λ ifd_bytes l.
                      Ensures-bind (λ ifd. Unit) IsPlausible (uint order 4 ifd_bytes) _
                        (uint-Ensures order 4 ifd_bytes (omega (arith, l)))
                        (λ ifd u.
                          Ensures-bind (λ gps. Unit) IsPlausible
                            (pointer_in order bytes ifd tag_gps_info) _
                            (pointer_in-Ensures order bytes ifd tag_gps_info)
                            (λ gps u.
                              Ensures-bind (λ angle. Unit) IsPlausible
                                (angle_in order bytes fl gps 2 1 0x53) _
                                (angle_in-Ensures order bytes fl gps 2 1 0x53)
                                (λ latitude u.
                                  Ensures-bind (λ angle. Unit) IsPlausible
                                    (angle_in order bytes fl gps 4 3 0x57) _
                                    (angle_in-Ensures order bytes fl gps 4 3 0x57)
                                    (λ longitude u. plausible-Ensures _))))))))

  pub from_tiff-Ensures : (bytes : List ℕ) → Ensures IsPlausible (from_tiff fl bytes)
  unfolding from_tiff Ensures
  from_tiff-Ensures bytes =
      Ensures-if IsPlausible (ltb (length bytes) 8) absent _ (λ e. tt)
        (λ e.
          Ensures-bind (λ part. length part ≡ 2) IsPlausible (slice bytes 0 2) _
            (slice-Ensures bytes 0 2 (omega arith) (ground (arith, e)))
            (λ mark l.
              Ensures-if IsPlausible (same_bytes mark (0x49 ∷ 0x49 ∷ []))
                (located_in fl little_endian bytes) _
                (λ i. located_in-Ensures little_endian bytes (ltb→le (length bytes) 8 e))
                (λ i.
                  Ensures-if IsPlausible (same_bytes mark (0x4d ∷ 0x4d ∷ []))
                    (located_in fl big_endian bytes) absent
                    (λ m. located_in-Ensures big_endian bytes (ltb→le (length bytes) 8 e))
                    (λ m. tt))))

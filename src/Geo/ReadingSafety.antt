-- ===== src/Geo/ReadingSafety.antt =====
-- internal/geo: Read ends, indexes within bounds outside exifItemID, and finds places within their ranges only.
use gpb.Geo.Bytes.{
  ◌>>=◌, Read, got, absent, unreadable, panicked, unfinished, panics, same_bytes, lt64, read_up_to,
}
use gpb.Geo.Boxes.{Box, read_box_header, child_of, body_of, meta_version_skip}
use gpb.Geo.BoxWalk.{
  IsBoxAt, read_box_header-Ensures, child_of-Returns, body_of-Returns, meta_version_skip-Returns,
}
use gpb.Geo.Ensures.{
  Ensures, Ends, Yields, Ends-Yields, Yields-if, Yields-bind, Ensures-panics, Returns, Finishes,
  Ensures-Finishes,
}
use gpb.Geo.Float64.{Float64}
use gpb.Geo.Heic.{exif_item_id, exif_item_of_heic, exif_block, extent_of}
use gpb.Geo.HeicSafety.{exif_block-Ensures, extent_of-Returns, exif_item_id-Finishes}
use gpb.Geo.Movie.{location_of_movie}
use gpb.Geo.MovieSafety.{location_of_movie-Ensures}
use gpb.Geo.Reading.{
  or_rest, with_box, boxes_from, read_isobmff, tiff_of, Format, jpeg, tiff, webp, png, isobmff,
  other, format_of, read_as, read_location, tiff_read_limit,
}
use gpb.Geo.Segments.{exif_of_jpeg, exif_of_png, exif_of_webp}
use gpb.Geo.SegmentWalk.{exif_of_jpeg-Ends, exif_of_png-Ends, exif_of_webp-Ends}
use gpb.Geo.Tiff.{Coordinates, from_tiff}
use gpb.Geo.TiffSafety.{IsPlausible, from_tiff-Ensures}
use gpb.Common.{
  Bool, true, ℕ, zero, suc, ◌+◌, ◌<◌, false, ◌&&◌, not, Option, none, some, ◌≡◌, ◌≢◌, subst, List,
  [], ◌∷◌, ltb, length, take, arith,
}

module _ (fl : Float64) where
  -- fromTIFF, extentOf's reading of an item location table, and locationOfMovie panic for no bytes, item,
  -- file or box.
  pub readers_lem :
      (bytes body file : List ℕ) (item : ℕ) (moov : Box)
      → (panics (from_tiff fl bytes) ≡ false)
        × (panics (extent_of item body) ≡ false)
        × (panics (location_of_movie fl file moov) ≡ false)
  readers_lem bytes body file item moov = (
    Ensures-panics (IsPlausible fl) (from_tiff fl bytes) (from_tiff-Ensures fl bytes),
    Ensures-panics (λ place. Unit) (extent_of item body) (extent_of-Returns item body),
    Ensures-panics (IsPlausible fl) (location_of_movie fl file moov)
        (location_of_movie-Ensures fl file moov),
  )

  module _ (file : List ℕ) where
    exif_block-Ends : (place : ℕ × ℕ) → Ends (IsPlausible fl) (some (exif_block fl file place))
    unfolding Ends
    exif_block-Ends place = exif_block-Ensures fl file place

    location_of_movie-Ends :
        (moov : Box) → Ends (IsPlausible fl) (some (location_of_movie fl file moov))
    unfolding Ends
    location_of_movie-Ends moov = location_of_movie-Ensures fl file moov

    from_tiff-Ends : (bytes : List ℕ) → Ends (IsPlausible fl) (some (from_tiff fl bytes))
    unfolding Ends
    from_tiff-Ends bytes = from_tiff-Ensures fl bytes

    finishes : {A : Type 0} (r : Read A) → Returns r → Finishes r
    finishes r h = Ensures-Finishes (λ a. Unit) r h

    -- What exifItemOfHEIC does once it knows the item.
    item_of_heic-Yields :
        (meta : Box) (skip item : ℕ)
        → Yields (IsPlausible fl) (
            some (
              child_of file meta skip (0x69 ∷ 0x6C ∷ 0x6F ∷ 0x63 ∷ []) >>= λ iloc.
              body_of file iloc >>= λ locations. extent_of item locations >>= exif_block fl file))
    item_of_heic-Yields meta skip item =
        Yields-bind (IsPlausible fl) (child_of file meta skip _) _
          (finishes _ (child_of-Returns file meta skip _))
          (λ iloc.
            Yields-bind (IsPlausible fl) (body_of file iloc) _
              (finishes _ (body_of-Returns file iloc))
              (λ locations.
                Yields-bind (IsPlausible fl) (extent_of item locations) _
                  (finishes _ (extent_of-Returns item locations))
                  (λ place. Ends-Yields (IsPlausible fl) (some _) (exif_block-Ends place))))

    exif_item_of_heic-Yields :
        (meta : Box) → Yields (IsPlausible fl) (some (exif_item_of_heic fl file meta))
    unfolding exif_item_of_heic
    exif_item_of_heic-Yields meta =
        Yields-bind (IsPlausible fl) (meta_version_skip file meta) _
          (finishes _ (meta_version_skip-Returns file meta))
          (λ skip.
            Yields-bind (IsPlausible fl) (child_of file meta skip _) _
              (finishes _ (child_of-Returns file meta skip _))
              (λ iinf.
                Yields-bind (IsPlausible fl) (body_of file iinf) _
                  (finishes _ (body_of-Returns file iinf))
                  (λ infos.
                    Yields-bind (IsPlausible fl) (exif_item_id infos) _
                      (exif_item_id-Finishes infos) (λ item. item_of_heic-Yields meta skip item))))

    or_rest-Yields :
        (rest : Option (Read (Coordinates fl))) (found : Read (Coordinates fl))
        → Yields (IsPlausible fl) (some found)
        → Yields (IsPlausible fl) rest
        → Yields (IsPlausible fl) (or_rest fl file rest found)
    unfolding Yields
    or_rest-Yields rest (got coordinates) h k = h
    or_rest-Yields rest absent h k = k
    or_rest-Yields rest unreadable h k = tt
    or_rest-Yields rest unfinished h k = elim h [ ]
    or_rest-Yields rest panicked h k = tt

    with_box-Yields :
        (go_on : Box → Option (Read (Coordinates fl))) (at : ℕ) (found : Read Box)
        → Ensures (IsBoxAt file at) found
        → ((box : Box) → IsBoxAt file at box → Yields (IsPlausible fl) (go_on box))
        → Yields (IsPlausible fl) (with_box fl file go_on found)
    unfolding Yields Ensures
    with_box-Yields go_on at (got box) h k = k box h
    with_box-Yields go_on at absent h k = tt
    with_box-Yields go_on at unreadable h k = tt
    with_box-Yields go_on at unfinished h k = elim h [ ]
    with_box-Yields go_on at panicked h k = tt

    boxes_from-Yields :
        (fuel at : ℕ)
        → length file < at + fuel
        → 0 < fuel
        → Yields (IsPlausible fl) (boxes_from fl file fuel at)
    unfolding boxes_from Yields
    boxes_from-Yields zero at h k = ground (arith, k)
    boxes_from-Yields (suc fuel) at h k =
        Yields-if (IsPlausible fl) (not (lt64 at (length file))) (some absent) _ (λ e. tt)
          (λ e.
            with_box-Yields _ at (read_box_header file at (length file))
              (read_box_header-Ensures file at (length file))
              (λ box b.
                let rest : Yields (IsPlausible fl) (boxes_from fl file fuel box.end) =
                  boxes_from-Yields fuel box.end (omega (arith, h, b.1, b.2))
                    (omega (arith, h, b.2)) in
                Yields-if (IsPlausible fl) (same_bytes box.kind _) _ _
                  (λ i.
                    or_rest-Yields _ (exif_item_of_heic fl file box) (exif_item_of_heic-Yields box)
                      rest)
                  (λ i.
                    Yields-if (IsPlausible fl) (same_bytes box.kind _) _ _
                      (λ j. Ends-Yields (IsPlausible fl) (some _) (location_of_movie-Ends box))
                      (λ j. rest))))

    tiff_of-Yields :
        (exif : Option (Read (List ℕ)))
        → Ends (λ exif. Unit) exif
        → Yields (IsPlausible fl) (tiff_of fl file exif)
    unfolding Ends Ensures
    tiff_of-Yields none h = elim h [ ]
    tiff_of-Yields (some exif) h =
        Yields-bind (IsPlausible fl) exif (from_tiff fl) (Ensures-Finishes (λ bytes. Unit) exif h)
          (λ bytes. Ends-Yields (IsPlausible fl) (some (from_tiff fl bytes)) (from_tiff-Ends bytes))

    read_as-Yields : (format : Format) → Yields (IsPlausible fl) (read_as fl file format)
    unfolding read_as read_isobmff Yields Ends Ensures
    read_as-Yields jpeg = tiff_of-Yields (exif_of_jpeg file) (exif_of_jpeg-Ends file)
    read_as-Yields tiff = tiff_of-Yields (some (got (read_up_to file 0 tiff_read_limit))) tt
    read_as-Yields webp = tiff_of-Yields (exif_of_webp file) (exif_of_webp-Ends file)
    read_as-Yields png = tiff_of-Yields (exif_of_png file) (exif_of_png-Ends file)
    read_as-Yields isobmff = boxes_from-Yields (length file + 2) 0 (omega arith) (omega arith)
    read_as-Yields other = tt

    read_location-Yields : Yields (IsPlausible fl) (read_location fl file)
    unfolding read_location Yields
    read_location-Yields =
        Yields-if (IsPlausible fl) (ltb (length file) 12) (some absent) _ (λ e. tt)
          (λ e. read_as-Yields (format_of (take 12 file)))

    -- Read ends on every file: the walks over its segments or boxes come to their end, and so do the walks
    -- over the children of a box that they start, each within the fuel of two units more than bytes.
    pub read_location-IsDone :
        (read_location fl file ≢ none) × (read_location fl file ≢ some unfinished)
    unfolding Yields
    read_location-IsDone = (
      λ e. subst (Yields (IsPlausible fl)) e read_location-Yields,
      λ e. subst (Yields (IsPlausible fl)) e read_location-Yields,
    )

    -- A place that Read finds, in any format, whose latitude and longitude are numbers, that is no NaN:
    -- the latitude is from -90 to 90, the longitude from -180 to 180, and the two are not both equal to
    -- zero. Of the order of floats it is used that of two numbers the first is at most the second where
    -- the second is not less, that the whole numbers are numbers, and that a number's negation is.
    pub read_location-IsPlausible :
        (is_number : fl.F → Bool) (at_most : fl.F → fl.F → Bool)
        → ((a b : fl.F)
            → is_number a ≡ true
            → is_number b ≡ true
            → fl.less b a ≡ false
            → at_most a b ≡ true)
        → ((n : ℕ) → is_number (fl.of_nat n) ≡ true)
        → ((a : fl.F) → is_number a ≡ true → is_number (fl.negate a) ≡ true)
        → (c : Coordinates fl) → is_number c.latitude ≡ true
        → is_number c.longitude ≡ true
        → read_location fl file ≡ some (got c)
        → ((fl.equal c.latitude (fl.of_nat 0) && fl.equal c.longitude (fl.of_nat 0)) ≡ false)
          × (at_most (fl.negate (fl.of_nat 90)) c.latitude ≡ true)
          × (at_most c.latitude (fl.of_nat 90) ≡ true)
          × (at_most (fl.negate (fl.of_nat 180)) c.longitude ≡ true)
          × (at_most c.longitude (fl.of_nat 180) ≡ true)
    unfolding Yields
    read_location-IsPlausible is_number at_most total whole negated c lat lon e =
        let h : IsPlausible fl c = subst (Yields (IsPlausible fl)) e read_location-Yields in
        let low = λ (n : ℕ). negated (fl.of_nat n) (whole n) in
        (
          h.0,
          total (fl.negate (fl.of_nat 90)) c.latitude (low 90) lat (ground (arith, h.1)),
          total c.latitude (fl.of_nat 90) lat (whole 90) (ground (arith, h.1)),
          total (fl.negate (fl.of_nat 180)) c.longitude (low 180) lon (ground (arith, h.2)),
          total c.longitude (fl.of_nat 180) lon (whole 180) (ground (arith, h.2)),
        )

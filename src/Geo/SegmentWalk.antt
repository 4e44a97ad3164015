-- ===== src/Geo/SegmentWalk.antt =====
-- internal/geo/geo.go: the walks over segments go forwards, and end.
use gpb.Geo.Bytes.{
  Read, got, from_on, big_endian, value_of, has_prefix, same_bytes, byte_at, read_up_to,
}
use gpb.Geo.Segments.{
  Segment, ends, on_at, exif_prefix, bytes_at, has_no_payload, jpeg_sized, jpeg_marked,
  jpeg_segment, webp_headed, webp_chunk, png_headed, png_chunk, after_segment, walk_segments,
  exif_of_jpeg, exif_of_webp, exif_of_png,
}
use gpb.Geo.Ensures.{Ensures, Returns, Ends, from_on-Ensures, Ensures-map}
use gpb.Common.{
  ℕ, zero, suc, ◌+◌, ◌-◌, ◌≤◌, ◌<◌, Bool, true, false, ◌||◌, not, Option, none, some, ◌≡◌, refl,
  List, [], ◌∷◌, ltb, ◌==◌, nat_eq, if◌then◌else◌, length, take, drop, arith,
}

-- A step ends the walk without a panic, or goes on behind a place within the file.
unfoldable IsForward : List ℕ → ℕ → Segment → Type 0
IsForward file at (ends answer) = Returns answer
IsForward file at (on_at next) = (at < next) × (at < length file)

IsForward-if :
    (file : List ℕ) (at : ℕ) (c : Bool) (r s : Segment)
    → (c ≡ true → IsForward file at r)
    → (c ≡ false → IsForward file at s)
    → IsForward file at (if c then r else s)
IsForward-if file at true r s f g = f refl
IsForward-if file at false r s f g = g refl

has_prefix-length :
    (prefix bytes : List ℕ) → has_prefix prefix bytes ≡ true → length prefix ≤ length bytes
has_prefix-length [] bytes h = omega arith
has_prefix-length (p ∷ prefix) [] h = ground (arith, h)
has_prefix-length (p ∷ prefix) (b ∷ bytes) h = ground (arith, has_prefix-length prefix bytes, h)

bytes_at-within :
    (file : List ℕ) (at n : ℕ) (bytes : List ℕ)
    → bytes_at file at n ≡ some bytes
    → at + n ≤ length file
bytes_at-within file at n bytes h = ground (arith, h)

module _ (file : List ℕ) (at : ℕ) where
  jpeg_sized-IsForward :
      (marker : ℕ) (size : Option (List ℕ))
      → at < length file
      → IsForward file at (jpeg_sized file at marker size)
  unfolding IsForward Ensures
  jpeg_sized-IsForward marker none h = tt
  jpeg_sized-IsForward marker (some size) h =
      let total = value_of big_endian size in
      let payload = read_up_to file (at + 4) (total - 2) in
      IsForward-if file at (ltb total 2) (ends (got [])) _ (λ e. tt)
        (λ e.
          IsForward-if file at (marker == 0xE1) _ (on_at (at + 4 + (total - 2)))
            (λ i.
              IsForward-if file at (has_prefix exif_prefix payload) (ends (from_on payload 6))
                (on_at (at + 4 + length payload))
                (λ j.
                  Ensures-map (λ rest. length rest ≡ length payload - 6) (λ rest. Unit)
                    (from_on payload 6) (λ rest l. tt)
                    (from_on-Ensures payload 6 (has_prefix-length exif_prefix payload j)))
                (λ j. (omega arith, h)))
            (λ i. (omega arith, h)))

  jpeg_marked-IsForward :
      (mark : Option (List ℕ))
      → ((bytes : List ℕ) → mark ≡ some bytes → at + 2 ≤ length file)
      → IsForward file at (jpeg_marked file at mark)
  unfolding IsForward Ensures
  jpeg_marked-IsForward none h = tt
  jpeg_marked-IsForward (some mark) h =
      let within : at < length file = omega (arith, h mark refl) in
      IsForward-if file at (not (byte_at 0 mark == 0xFF)) (ends (got [])) _ (λ e. tt)
        (λ e.
          IsForward-if file at (byte_at 1 mark == 0xFF) (on_at (at + 1)) _
            (λ i. (omega arith, within))
            (λ i.
              IsForward-if file at (has_no_payload (byte_at 1 mark)) (on_at (at + 2)) _
                (λ j. (omega arith, within))
                (λ j.
                  IsForward-if file at (byte_at 1 mark == 0xD9 || byte_at 1 mark == 0xDA)
                    (ends (got [])) _ (λ k. tt)
                    (λ k.
                      jpeg_sized-IsForward (byte_at 1 mark) (bytes_at file (at + 2) 2) within))))

  webp_headed-IsForward :
      (header : Option (List ℕ))
      → ((bytes : List ℕ) → header ≡ some bytes → at + 8 ≤ length file)
      → IsForward file at (webp_headed file at header)
  unfolding IsForward Ensures
  webp_headed-IsForward none h = tt
  webp_headed-IsForward (some header) h =
      IsForward-if file at (same_bytes (take 4 header) _) (ends (got _)) (on_at _) (λ e. tt)
        (λ e. (omega arith, omega (arith, h header refl)))

  png_headed-IsForward :
      (header : Option (List ℕ))
      → ((bytes : List ℕ) → header ≡ some bytes → at + 8 ≤ length file)
      → IsForward file at (png_headed file at header)
  unfolding IsForward Ensures
  png_headed-IsForward none h = tt
  png_headed-IsForward (some header) h =
      IsForward-if file at (same_bytes (drop 4 header) _) (ends (got _)) _ (λ e. tt)
        (λ e.
          IsForward-if file at (same_bytes (drop 4 header) _ || same_bytes (drop 4 header) _)
            (ends (got [])) (on_at _) (λ i. tt) (λ i. (omega arith, omega (arith, h header refl))))

after_segment-Ends :
    (file : List ℕ) (at : ℕ) (go_on : ℕ → Option (Read (List ℕ))) (segment : Segment)
    → IsForward file at segment
    → ((next : ℕ) → at < next → at < length file → Ends (λ exif. Unit) (go_on next))
    → Ends (λ exif. Unit) (after_segment go_on segment)
unfolding IsForward Ends
after_segment-Ends file at go_on (ends answer) h k = h
after_segment-Ends file at go_on (on_at next) h k = k next h.0 h.1

-- A walk of forward steps ends, on fuel for the rest of the file.
walk_segments-Ends :
    (file : List ℕ) (segment : ℕ → Segment) (fuel at : ℕ)
    → ((at : ℕ) → IsForward file at (segment at))
    → length file < at + fuel
    → 0 < fuel
    → Ends (λ exif. Unit) (walk_segments segment fuel at)
unfolding walk_segments
walk_segments-Ends file segment zero at f h k = ground (arith, k)
walk_segments-Ends file segment (suc fuel) at f h k =
    after_segment-Ends file at _ (segment at) (f at) (λ next further within.
      walk_segments-Ends file segment fuel next f (omega (arith, h, further))
        (omega (arith, h, within)))

pub exif_of_jpeg-Ends : (file : List ℕ) → Ends (λ exif. Unit) (exif_of_jpeg file)
unfolding exif_of_jpeg jpeg_segment
exif_of_jpeg-Ends file =
    walk_segments-Ends file (jpeg_segment file) (length file + 1) 2
      (λ at. jpeg_marked-IsForward file at (bytes_at file at 2) (bytes_at-within file at 2))
      (omega arith) (omega arith)

pub exif_of_webp-Ends : (file : List ℕ) → Ends (λ exif. Unit) (exif_of_webp file)
unfolding exif_of_webp webp_chunk
exif_of_webp-Ends file =
    walk_segments-Ends file (webp_chunk file) (length file + 1) 12
      (λ at. webp_headed-IsForward file at (bytes_at file at 8) (bytes_at-within file at 8))
      (omega arith) (omega arith)

pub exif_of_png-Ends : (file : List ℕ) → Ends (λ exif. Unit) (exif_of_png file)
unfolding exif_of_png png_chunk
exif_of_png-Ends file =
    walk_segments-Ends file (png_chunk file) (length file + 1) 8
      (λ at. png_headed-IsForward file at (bytes_at file at 8) (bytes_at-within file at 8))
      (omega arith) (omega arith)

-- ===== src/Geo/MovieSafety.antt =====
-- internal/geo/isobmff.go: the readers of a movie index within bounds.
use gpb.Geo.Bytes.{
  Read, got, absent, unreadable, panicked, unfinished, ◌>>=◌, slice, from_on, big_endian, uint,
}
use gpb.Geo.Boxes.{Box, child_of, children_of, body_of, meta_version_skip}
use gpb.Geo.BoxWalk.{
  HasKind, child_of-Returns, children_of-Ensures, body_of-Returns, meta_version_skip-Returns,
}
use gpb.Geo.Ensures.{
  Ensures, Returns, Ensures-if, Ensures-bind, Ensures-map, slice-Ensures, from_on-Ensures,
  uint-Ensures, number_at-Ensures,
}
use gpb.Geo.Float64.{Float64}
use gpb.Geo.Movie.{
  optional, KeyStep, is_named, no_key, next_key_at, key_at, after_key, key_from, key_position,
  text_of_item, text_at, quick_time_key, location_key, user_text, xyz_text, text_in_udta, parsed,
  plausible_or, keyed_location, location_of_movie,
}
use gpb.Geo.Tiff.{Coordinates}
use gpb.Geo.TiffSafety.{IsPlausible, plausible-Ensures}
use gpb.Common.{
  ℕ, zero, suc, ◌+◌, ◌-◌, ◌≤◌, ◌%◌, ◌^◌, ◌||◌, Option, none, some, ◌≡◌, List, [], ◌∷◌, ltb, ◌==◌,
  nat_eq, length, All, arith,
}

optional-Returns {ℓ} : {A : Type ℓ} (r : Read A) → Returns r → Returns (optional r)
unfolding Ensures
optional-Returns (got a) h = tt
optional-Returns absent h = tt
optional-Returns unreadable h = tt
optional-Returns unfinished h = elim h [ ]
optional-Returns panicked h = h

-- What follows a read that does not panic.
then-Ensures {ℓ κ} :
    {A : Type ℓ} {B : Type κ} (P : B → Type 0) (r : Read A) (f : A → Read B)
    → Returns r
    → ((a : A) → Ensures P (f a))
    → Ensures P (r >>= f)
then-Ensures {A} P r f h k = Ensures-bind (λ (a : A). Unit) P r f h (λ a u. k a)

key_at-Returns : (name body : List ℕ) (at : ℕ) → Returns (key_at name body at)
unfolding key_at Ensures
key_at-Returns name body at =
    Ensures-if (λ step. Unit) (ltb (length body) (at + 8)) (got no_key) _ (λ e. tt)
      (λ e.
        number_at-Ensures (λ step. Unit) big_endian 4 at body _ (ground (arith, e))
          (λ size.
            Ensures-if (λ step. Unit) (ltb size 8 || ltb (length body) (at + size)) (got no_key) _
              (λ i. tt)
              (λ i.
                Ensures-bind (λ key. length key ≡ at + size - (at + 8)) (λ step. Unit)
                  (slice body (at + 8) (at + size)) _
                  (slice-Ensures body (at + 8) (at + size) (ground (arith, i)) (ground (arith, i)))
                  (λ key l. tt))))

after_key-Returns :
    (position : ℕ) (go_on : ℕ → Read ℕ)
    → ((next : ℕ) → Returns (go_on next))
    → (step : KeyStep) → Returns (after_key position go_on step)
unfolding Ensures
after_key-Returns position go_on h is_named = tt
after_key-Returns position go_on h no_key = tt
after_key-Returns position go_on h (next_key_at next) = h next

key_from-Returns :
    (name body : List ℕ) (left position at : ℕ) → Returns (key_from name body left position at)
unfolding key_from Ensures
key_from-Returns name body zero position at = tt
key_from-Returns name body (suc left) position at =
    then-Ensures (λ position. Unit) (key_at name body at) _ (key_at-Returns name body at)
      (after_key-Returns position _ (λ next. key_from-Returns name body left (position + 1) next))

key_position-Returns : (name body : List ℕ) → Returns (key_position name body)
unfolding key_position Ensures
key_position-Returns name body =
    Ensures-if (λ position. Unit) (ltb (length body) 8) absent _ (λ e. tt)
      (λ e.
        number_at-Ensures (λ position. Unit) big_endian 4 4 body _ (ground (arith, e))
          (λ count. key_from-Returns name body count 1 8))

-- The bytes from a position on, where there are so many.
from_on-Returns : (body : List ℕ) (from : ℕ) → from ≤ length body → Returns (from_on body from)
from_on-Returns body from h =
    Ensures-map (λ rest. length rest ≡ length body - from) (λ rest. Unit) (from_on body from)
      (λ rest l. tt) (from_on-Ensures body from h)

text_of_item-Returns : (file : List ℕ) (item : Box) → Returns (text_of_item file item)
unfolding text_of_item Ensures
text_of_item-Returns file item =
    then-Ensures (λ text. Unit) (child_of file item 0 _) _ (child_of-Returns file item 0 _)
      (λ data_box.
        then-Ensures (λ text. Unit) (body_of file data_box) _ (body_of-Returns file data_box)
          (λ value.
            Ensures-if (λ text. Unit) (ltb (length value) 8) absent _ (λ e. tt)
              (λ e. from_on-Returns value 8 (ground (arith, e)))))

text_at-Returns :
    (file : List ℕ) (position : ℕ) (items : List Box)
    → All HasKind items
    → Returns (text_at file position items)
unfolding text_at Ensures
text_at-Returns file position [] h = tt
text_at-Returns file position (item ∷ items) h =
    then-Ensures (λ text. Unit) (uint big_endian 4 item.kind) _
      (uint-Ensures big_endian 4 item.kind (omega (arith, h.0)))
      (λ number.
        Ensures-if (λ text. Unit) (number == position % 2 ^ 32) _ _
          (λ e. text_of_item-Returns file item) (λ e. text_at-Returns file position items h.1))

quick_time_key-Returns :
    (file : List ℕ) (meta : Box) (skip : ℕ) (name : List ℕ)
    → Returns (quick_time_key file meta skip name)
unfolding quick_time_key
quick_time_key-Returns file meta skip name =
    then-Ensures (λ text. Unit) (child_of file meta skip _) _ (child_of-Returns file meta skip _)
      (λ keys.
        then-Ensures (λ text. Unit) (body_of file keys) _ (body_of-Returns file keys)
          (λ body.
            then-Ensures (λ text. Unit) (key_position name body) _ (key_position-Returns name body)
              (λ position.
                then-Ensures (λ text. Unit) (child_of file meta skip _) _
                  (child_of-Returns file meta skip _)
                  (λ ilst.
                    Ensures-bind (All HasKind) (λ text. Unit) (children_of file ilst 0) _
                      (children_of-Ensures file ilst 0)
                      (λ items all. text_at-Returns file position items all)))))

xyz_text-Returns : (file : List ℕ) (xyz : Option Box) → Returns (xyz_text file xyz)
unfolding xyz_text Ensures
xyz_text-Returns file none = tt
xyz_text-Returns file (some xyz) =
    then-Ensures (λ text. Unit) (body_of file xyz) _ (body_of-Returns file xyz)
      (λ body.
        Ensures-if (λ text. Unit) (ltb 4 (length body)) _ (got none)
          (λ e. optional-Returns (from_on body 4) (from_on-Returns body 4 (ground (arith, e))))
          (λ e. tt))

text_in_udta-Returns : (file : List ℕ) (udta : Option Box) → Returns (text_in_udta file udta)
unfolding text_in_udta Ensures
text_in_udta-Returns file none = tt
text_in_udta-Returns file (some udta) =
    then-Ensures (λ text. Unit) (optional (child_of file udta 0 _)) _
      (optional-Returns (child_of file udta 0 _) (child_of-Returns file udta 0 _))
      (xyz_text-Returns file)

user_text-Returns : (file : List ℕ) (moov : Box) → Returns (user_text file moov)
unfolding user_text
user_text-Returns file moov =
    then-Ensures (λ text. Unit) (optional (child_of file moov 0 _)) _
      (optional-Returns (child_of file moov 0 _) (child_of-Returns file moov 0 _))
      (text_in_udta-Returns file)

module _ (fl : Float64) where
  plausible_or-Ensures :
      (otherwise : Read (Coordinates fl)) (coordinates : Option (Coordinates fl))
      → Ensures (IsPlausible fl) otherwise
      → Ensures (IsPlausible fl) (plausible_or fl otherwise coordinates)
  plausible_or-Ensures otherwise none h = h
  plausible_or-Ensures otherwise (some coordinates) h = plausible-Ensures fl coordinates

  keyed_location-Ensures :
      (file : List ℕ) (moov : Box) → Ensures (IsPlausible fl) (keyed_location fl file moov)
  unfolding keyed_location Ensures
  keyed_location-Ensures file moov =
      then-Ensures (IsPlausible fl) (child_of file moov 0 _) _ (child_of-Returns file moov 0 _)
        (λ meta.
          then-Ensures (IsPlausible fl) (meta_version_skip file meta) _
            (meta_version_skip-Returns file meta)
            (λ skip.
              then-Ensures (IsPlausible fl) (quick_time_key file meta skip location_key) _
                (quick_time_key-Returns file meta skip location_key)
                (λ text. plausible_or-Ensures absent (parsed fl (some text)) tt)))

  pub location_of_movie-Ensures :
      (file : List ℕ) (moov : Box) → Ensures (IsPlausible fl) (location_of_movie fl file moov)
  unfolding location_of_movie
  location_of_movie-Ensures file moov =
      then-Ensures (IsPlausible fl) (user_text file moov) _ (user_text-Returns file moov) (λ text.
        plausible_or-Ensures (keyed_location fl file moov) (parsed fl text)
          (keyed_location-Ensures file moov))

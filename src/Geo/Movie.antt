-- ===== src/Geo/Movie.antt =====
-- internal/geo/isobmff.go: the location of a movie, under udta as ©xyz or under the QuickTime keys.
use gpb.Geo.Bytes.{
  Read, got, absent, unreadable, panicked, unfinished, ◌>>=◌, slice, from_on, big_endian, uint,
  same_bytes,
}
use gpb.Geo.Boxes.{Box, child_of, children_of, body_of, meta_version_skip}
use gpb.Geo.Float64.{Float64}
use gpb.Geo.Tiff.{Coordinates, plausible}
use gpb.Geo.Iso6709.{parse_iso6709}
use gpb.Common.{
  ℕ, zero, suc, ◌+◌, ◌%◌, ◌^◌, ◌||◌, Option, none, some, List, [], ◌∷◌, ltb, ◌==◌, nat_eq,
  if◌then◌else◌, length,
}

-- A found value or a missing one, where the code goes on after either.
abbrev pub optional {ℓ} : {A : Type ℓ} → Read A → Read (Option A)
optional (got a) = got (some a)
optional absent = got none
optional unreadable = unreadable
optional unfinished = unfinished
optional panicked = panicked

-- What one turn of quickTimeKey's first loop comes to.
pub data KeyStep : Type 0 where
  is_named no_key : KeyStep
  next_key_at : ℕ → KeyStep

unfoldable pub key_at : List ℕ → List ℕ → ℕ → Read KeyStep
key_at name body at = if ltb (length body) (at + 8) then got no_key else do
  rest ← from_on body at
  size ← uint big_endian 4 rest
  if ltb size 8 || ltb (length body) (at + size)
      then got no_key
      else slice body (at + 8) (at + size) >>= λ key.
          got (if same_bytes key name then is_named else next_key_at (at + size))

abbrev pub after_key : ℕ → (ℕ → Read ℕ) → KeyStep → Read ℕ
after_key position go_on is_named = got position
after_key position go_on no_key = absent
after_key position go_on (next_key_at next) = go_on next

-- The loop: so many keys left, the position of the next and where it is.
unfoldable pub key_from : List ℕ → List ℕ → ℕ → ℕ → ℕ → Read ℕ
unfolding key_at
key_from name body zero position at = absent
key_from name body (suc left) position at =
    key_at name body at >>= after_key position λ next. key_from name body left (position + 1) next

unfoldable pub key_position : List ℕ → List ℕ → Read ℕ
unfolding key_from
key_position name body =
    if ltb (length body) 8
    then absent
    else do rest ← from_on body 4; count ← uint big_endian 4 rest; key_from name body count 1 8

-- The text of an item's data box, past the type and locale words.
unfoldable pub text_of_item : List ℕ → Box → Read (List ℕ)
unfolding child_of body_of
text_of_item file item = do
  data_box ← child_of file item 0 (0x64 ∷ 0x61 ∷ 0x74 ∷ 0x61 ∷ [])
  value ← body_of file data_box
  if ltb (length value) 8 then absent else from_on value 8

unfoldable pub text_at : List ℕ → ℕ → List Box → Read (List ℕ)
unfolding text_of_item
text_at file position [] = absent
text_at file position (item ∷ items) = uint big_endian 4 item.kind >>= λ number.
    if number == position % 2 ^ 32 then text_of_item file item else text_at file position items

unfoldable pub quick_time_key : List ℕ → Box → ℕ → List ℕ → Read (List ℕ)
unfolding text_at key_position child_of children_of body_of
quick_time_key file meta skip name = do
  keys ← child_of file meta skip (0x6B ∷ 0x65 ∷ 0x79 ∷ 0x73 ∷ [])
  body ← body_of file keys
  position ← key_position name body
  ilst ← child_of file meta skip (0x69 ∷ 0x6C ∷ 0x73 ∷ 0x74 ∷ [])
  items ← children_of file ilst 0
  text_at file position items

-- "com.apple.quicktime.location.ISO6709"
abbrev pub location_key : List ℕ
location_key =
    0x63 ∷ 0x6F ∷ 0x6D ∷ 0x2E ∷ 0x61 ∷ 0x70 ∷ 0x70 ∷ 0x6C ∷ 0x65 ∷ 0x2E ∷ 0x71 ∷ 0x75 ∷ 0x69 ∷ 0x63
    ∷ 0x6B ∷ 0x74 ∷ 0x69 ∷ 0x6D ∷ 0x65 ∷ 0x2E ∷ 0x6C ∷ 0x6F ∷ 0x63 ∷ 0x61 ∷ 0x74 ∷ 0x69 ∷ 0x6F
    ∷ 0x6E ∷ 0x2E ∷ 0x49 ∷ 0x53 ∷ 0x4F ∷ 0x36 ∷ 0x37 ∷ 0x30 ∷ 0x39 ∷ []

-- The text of a ©xyz box, past its length and language.
unfoldable pub xyz_text : List ℕ → Option Box → Read (Option (List ℕ))
unfolding body_of
xyz_text file none = got none
xyz_text file (some xyz) =
    body_of file xyz >>= λ body. if ltb 4 (length body) then optional (from_on body 4) else got none

unfoldable pub text_in_udta : List ℕ → Option Box → Read (Option (List ℕ))
unfolding child_of xyz_text
text_in_udta file none = got none
text_in_udta file (some udta) =
    optional (child_of file udta 0 (0xA9 ∷ 0x78 ∷ 0x79 ∷ 0x7A ∷ [])) >>= xyz_text file

-- The text of the ©xyz box in the user data.
unfoldable pub user_text : List ℕ → Box → Read (Option (List ℕ))
unfolding child_of text_in_udta
user_text file moov =
    optional (child_of file moov 0 (0x75 ∷ 0x64 ∷ 0x74 ∷ 0x61 ∷ [])) >>= text_in_udta file

module _ (fl : Float64) where
  unfoldable pub parsed : Option (List ℕ) → Option (Coordinates fl)
  unfolding parse_iso6709
  parsed none = none
  parsed (some text) = parse_iso6709 fl text

  abbrev pub plausible_or : Read (Coordinates fl) → Option (Coordinates fl) → Read (Coordinates fl)
  plausible_or otherwise none = otherwise
  plausible_or otherwise (some coordinates) = plausible fl coordinates

  unfoldable pub keyed_location : List ℕ → Box → Read (Coordinates fl)
  unfolding quick_time_key parsed child_of meta_version_skip
  keyed_location file moov = do
    meta ← child_of file moov 0 (0x6D ∷ 0x65 ∷ 0x74 ∷ 0x61 ∷ [])
    skip ← meta_version_skip file meta
    text ← quick_time_key file meta skip location_key
    plausible_or absent (parsed (some text))

  unfoldable pub location_of_movie : List ℕ → Box → Read (Coordinates fl)
  unfolding user_text parsed keyed_location plausible
  location_of_movie file moov =
      user_text file moov >>= λ text. plausible_or (keyed_location file moov) (parsed text)

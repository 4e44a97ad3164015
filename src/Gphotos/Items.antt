-- ===== src/Gphotos/Items.antt =====
-- internal/gphotos/items.go and timeline.go: the decoders of a page of items. An int64 and a Duration are
-- bit patterns, and a time is its milliseconds, `none` for the zero time.
use gpb.Gphotos.Json.{Json, Elements, nil, cons, Conversions}
use gpb.Gphotos.Tree.{
  Tree, root_of, at, key, text, number_at, list, present, Decoded, decoded, ◌>>=◌, driftf, cursor,
}
use gpb.Common.{
  ℕ, suc, ◌*◌, ◌%◌, ◌^◌, Bool, ◌&&◌, not, Option, none, some, List, [], ◌∷◌, String, ◌==◌,
  string_eq, if◌then◌else◌,
}

pub record MediaItem : Type 0 where
  pub media_key : String
  pub thumbnail_url : String
  pub width : ℕ
  pub height : ℕ
  pub captured_at : Option ℕ
  pub added_at : Option ℕ
  pub timezone_offset : ℕ
  pub dedup_key : String
  pub is_video : Bool
  pub duration : ℕ

pub record ItemPage : Type 0 where
  pub items : List MediaItem
  pub next_token : String
  pub album_id : String
  pub album_title : String

-- The zero value of a missing text.
abbrev pub or_empty : Option String → String
or_empty none = ""
or_empty (some value) = value

-- The text of a node that has to have one.
abbrev pub nonempty : Option String → Option String
nonempty none = none
nonempty (some value) = if value == "" then none else some value

-- A decoder's loop over the elements of a node: the next at an index.
unfoldable pub decode_each {ℓ} :
    {A : Type ℓ} → (Tree → Decoded A) → Tree → ℕ → Elements → Decoded (List A)
unfolding at
decode_each decode node index nil = decoded []
decode_each decode node index (cons element elements) = do
  first ← decode (at node index)
  rest ← decode_each decode node (suc index) elements
  decoded (first ∷ rest)

module _ (go : Conversions) where
  -- int(value), with the zero value for a missing number.
  abbrev pub int_of : Option ℕ → ℕ
  int_of none = 0
  int_of (some value) = go.to_int64 value

  abbrev pub time_of : Option ℕ → Option ℕ
  time_of none = none
  time_of (some millis) = if go.is_positive millis then some (go.to_int64 millis) else none

  unfoldable pub millis_to_time : Tree → Option ℕ
  unfolding number_at
  millis_to_time node = time_of (number_at node)

  -- time.Duration(value) * time.Millisecond
  abbrev pub duration_of : Option ℕ → ℕ
  duration_of value = int_of value * 1000000 % 2 ^ 64

  unfoldable pub decoded_item : Tree → String → MediaItem
  unfolding at key text number_at present millis_to_time
  decoded_item node media_key =
      let video = key (at node 9) "76647426" in
      record {
        media_key = media_key;
        thumbnail_url = or_empty (text (at (at node 1) 0));
        width = int_of (number_at (at (at node 1) 1));
        height = int_of (number_at (at (at node 1) 2));
        captured_at = millis_to_time (at node 2);
        added_at = millis_to_time (at node 5);
        timezone_offset = duration_of (number_at (at node 4));
        dedup_key = or_empty (text (at node 3));
        is_video = present video;
        duration = if present video then duration_of (number_at (at video 0)) else 0;
      }

  abbrev pub item_with_key : Tree → Option String → Decoded MediaItem
  item_with_key node none = driftf go (at node 0) "a media key"
  item_with_key node (some media_key) = decoded (decoded_item node media_key)

  unfoldable pub decode_media_item : Tree → Decoded MediaItem
  unfolding at text driftf decoded_item
  decode_media_item node = item_with_key node (nonempty (text (at node 0)))

  abbrev pub each_item : Tree → Option Elements → Decoded (List MediaItem)
  each_item node none = driftf go node "an array of media items"
  each_item node (some elements) = decode_each decode_media_item node 0 elements

  unfoldable pub decode_media_items : Tree → Decoded (List MediaItem)
  unfolding list driftf decode_each decode_media_item
  decode_media_items node = each_item node (list node)

  unfoldable pub decode_album_entries : Tree → Decoded (List MediaItem)
  unfolding at present decode_media_items
  decode_album_entries root =
      if not (present (at root 1)) && present (at root 3)
      then decoded []
      else decode_media_items (at root 1)

  unfoldable pub decode_item_page : Json → Decoded ItemPage
  unfolding decode_album_entries cursor at text
  decode_item_page payload = do
    items ← decode_album_entries (root_of payload "snAcKc")
    token ← cursor go (at (root_of payload "snAcKc") 2)
    decoded (record {
      items = items;
      next_token = token;
      album_id = or_empty (text (at (at (root_of payload "snAcKc") 3) 0));
      album_title = or_empty (text (at (at (root_of payload "snAcKc") 3) 1));
    })

  unfoldable pub decode_timeline_page : Json → Decoded ItemPage
  unfolding decode_media_items cursor at
  decode_timeline_page payload = do
    items ← decode_media_items (at (root_of payload "lcxiM") 0)
    token ← cursor go (at (root_of payload "lcxiM") 1)
    decoded (record { items = items; next_token = token; album_id = ""; album_title = "" })

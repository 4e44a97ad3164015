-- ===== src/Gphotos/Albums.antt =====
-- internal/gphotos/albums.go and shared.go: the decoders of a page of albums.
use gpb.Gphotos.Items.{or_empty, nonempty, decode_each, int_of, millis_to_time}
use gpb.Gphotos.Json.{Json, Elements, Conversions}
use gpb.Gphotos.Tree.{
  Tree, root_of, at, last, only, text, number_at, list, present, Decoded, decoded, ◌>>=◌, driftf,
  cursor,
}
use gpb.Common.{ℕ, Option, none, some, List, String, ◌==◌, string_eq, nat_eq, if◌then◌else◌}

-- `kind_unset` is the zero value that a shared listing leaves.
pub data AlbumKind : Type 0 where
  kind_unset owned shared bundle : AlbumKind

pub record Person : Type 0 where
  pub id : String
  pub name : String

pub record Album : Type 0 where
  pub id : String
  pub title : String
  pub item_count : ℕ
  pub created_at : Option ℕ
  pub cover_url : String
  pub kind : AlbumKind
  pub owner : Person

pub record AlbumPage : Type 0 where
  pub albums : List Album
  pub next_token : String

unfoldable pub decode_person : Tree → Person
unfolding at text
decode_person node = record {
  id = or_empty (text (at node 1));
  name = or_empty (text (at (at node 11) 0));
}

module _ (go : Conversions) where
  abbrev pub bundle_kind : ℕ
  bundle_kind = 4

  abbrev pub kind_of : Option ℕ → AlbumKind
  kind_of none = owned
  kind_of (some kind) = if go.to_int64 kind == bundle_kind then bundle else owned

  unfoldable pub decoded_album : Tree → String → Album
  unfolding at text number_at millis_to_time decode_person
  decoded_album node id = record {
    id = id;
    title = or_empty (text (at node 1));
    item_count = int_of go (number_at (at node 3));
    created_at = millis_to_time go (at node 4);
    cover_url = or_empty (text (at (at node 2) 0));
    kind = kind_of (number_at (at node 0));
    owner = decode_person (at (at node 10) 0);
  }

  abbrev pub album_with_id : Tree → Option String → Decoded Album
  album_with_id node none = driftf go (at node 6) "an album id"
  album_with_id node (some id) = decoded (decoded_album node id)

  unfoldable pub decode_album : Tree → Decoded Album
  unfolding at text driftf decoded_album
  decode_album node = album_with_id node (nonempty (text (at node 6)))

  abbrev pub page_of :
      Json → String → (Tree → Decoded Album) → String → Option Elements → Decoded AlbumPage
  page_of payload rpc decode want none = driftf go (at (root_of payload rpc) 0) want
  page_of payload rpc decode want (some elements) = do
    albums ← decode_each decode (at (root_of payload rpc) 0) 0 elements
    token ← cursor go (at (root_of payload rpc) 1)
    decoded (record { albums = albums; next_token = token })

  unfoldable pub decode_album_page : Json → Decoded AlbumPage
  unfolding decode_each decode_album driftf cursor at list
  decode_album_page payload =
      page_of payload "F2A0H" decode_album "an array of albums"
        (list (at (root_of payload "F2A0H") 0))

  unfoldable pub decoded_shared_album : Tree → String → Tree → Album
  unfolding at text number_at millis_to_time
  decoded_shared_album node id entry = record {
    id = id;
    title = or_empty (text (at entry 1));
    item_count = int_of go (number_at (at entry 3));
    created_at = millis_to_time go (at (at entry 2) 4);
    cover_url = or_empty (text (at (at node 1) 0));
    kind = kind_unset;
    owner = record { id = ""; name = "" };
  }

  abbrev pub shared_with_id : Tree → Option String → Decoded Album
  shared_with_id node none = driftf go (at node 0) "a shared album id"
  shared_with_id node (some id) =
      if present (only (last node))
      then decoded (decoded_shared_album node id (only (last node)))
      else driftf go (only (last node)) "a shared album record"

  unfoldable pub decode_shared_album : Tree → Decoded Album
  unfolding at last only text present driftf decoded_shared_album
  decode_shared_album node = shared_with_id node (nonempty (text (at node 0)))

  unfoldable pub decode_shared_album_page : Json → Decoded AlbumPage
  unfolding decode_each decode_shared_album driftf cursor at list
  decode_shared_album_page payload =
      page_of payload "Z5xsfc" decode_shared_album "an array of shared albums"
        (list (at (root_of payload "Z5xsfc") 0))

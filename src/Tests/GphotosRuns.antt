-- ===== src/Tests/GphotosRuns.antt =====
-- Runs of the decoders of internal/gphotos over small payloads.
use Prim.Native.String.{len}
use gpb.Gphotos.Albums.{AlbumPage, kind_unset, decode_album_page, decode_shared_album_page}
use gpb.Gphotos.Answers.{IsBookkeeping}
use gpb.Gphotos.Frames.{optional_string}
use gpb.Gphotos.Items.{ItemPage, decode_item_page, decode_timeline_page}
use gpb.Gphotos.Json.{
  Json, null, string, number, array, object, nil, cons, done, member, Conversions,
}
use gpb.Gphotos.Pages.{AreEntries, AreAllOf, IsTokenOf, decode_item_page_lem, decode_albums_lem}
use gpb.Gphotos.DriftPrivacy.{error_of}
use gpb.Gphotos.Privacy.{error_of-redact}
use gpb.Gphotos.Redaction.{redact}
use gpb.Gphotos.Strictness.{HasId}
use gpb.Gphotos.Tree.{decoded, value_at}
use gpb.Common.{
  ℕ, false, ◌≡◌, inl, inr, refl, Option, none, some, List, [], ◌∷◌, String, ◌==◌, string_eq, ==_iff,
  ltb, if◌then◌else◌, Bool-cases,
}

-- Numbers that stand for themselves.
abbrev plain : Conversions
plain = record { to_int64 = λ n. n; is_positive = λ n. ltb 0 n }

abbrev photo : Json
photo =
    array (
      cons (string "key-1") (cons (array (cons (string "https://x") nil)) (cons (number 1000) nil)))

-- An album page of one item, with a cursor.
abbrev item_payload : Json
item_payload = array (
    cons null (
      cons (array (cons photo nil))
        (cons (string "more") (cons (array (cons (string "album-1") nil)) nil))))

abbrev timeline_payload : Json
timeline_payload = array (cons (array (cons photo nil)) nil)

abbrev shared_entry : Json
shared_entry = array (
    cons (string "album-2")
      (cons (object (member "163238866" (array (cons null (cons (string "Trip") nil))) done)) nil))

abbrev shared_payload : Json
shared_payload = array (cons (array (cons shared_entry nil)) nil)

abbrev item_page : ItemPage
item_page = record {
  items =
      record {
        media_key = "key-1";
        thumbnail_url = "https://x";
        width = 0;
        height = 0;
        captured_at = some 1000;
        added_at = none;
        timezone_offset = 0;
        dedup_key = "";
        is_video = false;
        duration = 0;
      }
      ∷ [];
  next_token = "more";
  album_id = "album-1";
  album_title = "";
}

decodes_items : decode_item_page plain item_payload ≡ decoded item_page
unfolding decode_item_page
decodes_items = refl

abbrev timeline_page : ItemPage
timeline_page = record { items = item_page.items; next_token = ""; album_id = ""; album_title = "" }

decodes_timeline : decode_timeline_page plain timeline_payload ≡ decoded timeline_page
unfolding decode_timeline_page
decodes_timeline = refl

abbrev shared_page : AlbumPage
shared_page = record {
  albums =
      record {
        id = "album-2";
        title = "Trip";
        item_count = 0;
        created_at = none;
        cover_url = "";
        kind = kind_unset;
        owner = record { id = ""; name = "" };
      }
      ∷ [];
  next_token = "";
}

decodes_shared : decode_shared_album_page plain shared_payload ≡ decoded shared_page
unfolding decode_shared_album_page
decodes_shared = refl

decode_item_page_lem_example :
    AreEntries (value_at 1 item_payload) (value_at 3 item_payload) item_page.items
    × IsTokenOf (value_at 2 item_payload) "more"
decode_item_page_lem_example = decode_item_page_lem plain item_payload item_page decodes_items

decode_albums_lem_example :
    AreAllOf HasId (value_at 0 shared_payload) shared_page.albums
    × IsTokenOf (value_at 1 shared_payload) ""
decode_albums_lem_example = decode_albums_lem plain shared_payload shared_page (inr decodes_shared)

-- "secret" is printed as another text of its length.
abbrev hidden : String → String
hidden s = if s == "secret" then "public" else s

hidden-len : (s : String) → len (hidden s) ≡ len s
hidden-len s = elim (Bool-cases (s == "secret")) [
  | inl e ↦ rw (e, (==_iff s "secret").0 e) refl
  | inr e ↦ rw e refl
]

hidden-emptiness : (s : String) → (hidden s == "") ≡ (s == "")
hidden-emptiness s = elim (Bool-cases (s == "secret")) [
  | inl e ↦ rw (e, (==_iff s "secret").0 e) refl
  | inr e ↦ rw e refl
]

abbrev any_number : ℕ → ℕ
any_number n = 7

abbrev secret_payload : Json
secret_payload = array (cons (string "secret") (cons (number 3) nil))

error_of-redact_example :
    (error_of (decode_item_page plain (redact hidden any_number secret_payload))
      ≡ error_of (decode_item_page plain secret_payload))
    × (error_of (decode_timeline_page plain (redact hidden any_number secret_payload))
        ≡ error_of (decode_timeline_page plain secret_payload))
    × (error_of (decode_album_page plain (redact hidden any_number secret_payload))
        ≡ error_of (decode_album_page plain secret_payload))
    × (error_of (decode_shared_album_page plain (redact hidden any_number secret_payload))
        ≡ error_of (decode_shared_album_page plain secret_payload))
error_of-redact_example =
    error_of-redact hidden any_number plain hidden-len hidden-emptiness secret_payload

abbrev no_parser : String → Option Json
no_parser text = if text == "null" then some null else none

abbrev answer_row : List Json
answer_row = string "wrb.fr" ∷ string "lcxiM" ∷ string "null" ∷ []

abbrev bookkeeping_row : List Json
bookkeeping_row = string "di" ∷ number 57 ∷ []

bookkeeping_row_lem : IsBookkeeping "lcxiM" bookkeeping_row
unfolding optional_string
bookkeeping_row_lem = inl refl

-- ===== src/Store/Twins.antt =====
-- internal/store/twins.go and copies.go: written-off files that are copies of a photograph still
-- backed up, and backed-up files with the same bytes.
use gpb.Common.{
  Bool, true, false, ◌&&◌, not, Option, none, some, List, [], ◌∷◌, ◌++◌, map, String, ◌==◌,
  string_eq, if◌then◌else◌, is_some, delete, select, sort_by, then_by, reversed, compare_bool,
  compare_option, compare, Ordering, sql_is, take,
}
use Prim.Native.String.{compare as compare_text}
use gpb.Store.Rows.{done, missing_upstream, state_eq, Row, MediaItem, Db, scan_item}
use gpb.Store.Items.{same_bytes_copy, same_name_copy}

-- A row of the query of WrittenOffTwins.
pub record Pairing : Type 0 where
  pub written_off : Row
  pub kept : Row
  pub same_bytes : Bool

pub record Twin : Type 0 where
  pub written_off : MediaItem
  pub kept : MediaItem
  pub same_bytes : Bool

-- writtenOffWithAFile
unfoldable pub written_off_with_a_file : Row → Row → Bool
written_off_with_a_file r copy =
    r.state == missing_upstream && is_some r.local_path && is_some copy.local_path

unfoldable pub pairings_of : (Row → Row → Bool) → Bool → List Row → Row → List Pairing
unfolding written_off_with_a_file
pairings_of is_copy same table r =
    map (λ copy. record { written_off = r; kept = copy; same_bytes = same })
      (select (λ copy. is_copy r copy && written_off_with_a_file r copy) table)

unfoldable pub join_pairs : (Row → Row → Bool) → Bool → List Row → List Row → List Pairing
unfolding pairings_of
join_pairs is_copy same table [] = []
join_pairs is_copy same table (r ∷ rs) =
    pairings_of is_copy same table r ++ join_pairs is_copy same table rs

unfoldable pub pairing_order : Pairing → Pairing → Ordering
pairing_order p q =
    then_by (compare_option compare p.written_off.captured_at q.written_off.captured_at) (
      then_by (compare_text p.written_off.media_key q.written_off.media_key) (
        then_by (reversed (compare_bool p.same_bytes q.same_bytes))
          (reversed (compare_option compare p.kept.size_bytes q.kept.size_bytes))))

-- The UNION ALL of the two joins, sorted.
unfoldable pub all_pairings : List Row → List Pairing
unfolding join_pairs pairing_order
all_pairings table =
    sort_by pairing_order
      (join_pairs same_bytes_copy true table table ++ join_pairs same_name_copy false table table)

-- The loop that keeps the first pairing of each run of one written-off key.
unfoldable pub first_of_each : Option String → List Pairing → List Pairing
first_of_each last [] = []
first_of_each last (p ∷ ps) =
    let rest = first_of_each (some p.written_off.media_key) ps in
    if sql_is last (some p.written_off.media_key) then rest else p ∷ rest

abbrev pub to_twin : Pairing → Twin
to_twin p = record {
  written_off = scan_item p.written_off;
  kept = scan_item p.kept;
  same_bytes = p.same_bytes;
}

-- WrittenOffTwins. The Go code reads each item of a pairing again by its key, which is the row that
-- the join gave.
unfoldable pub written_off_twins : Db → List Twin
unfolding all_pairings first_of_each
written_off_twins db = map to_twin (first_of_each none (all_pairings db.media_items))

-- Forget
unfoldable pub forget : String → Db → Db
forget key db = record db {
  album_items = delete (λ l. l.media_key == key) db.album_items;
  media_selection = delete (λ s. s.media_key == key) db.media_selection;
  media_items = delete (λ r. r.media_key == key) db.media_items;
}

-- backedUpWithAHash
pub backed_up_with_a_hash : Row → Bool
backed_up_with_a_hash r = r.state == done && is_some r.local_path && is_some r.sha256

-- HeldCopyOf
unfoldable pub held_copy_of : Db → String → String → Option MediaItem
unfolding backed_up_with_a_hash
held_copy_of db sha256 key =
    elim (take 1 (
      sort_by
        (λ a b.
          then_by (compare_option compare a.downloaded_at b.downloaded_at)
            (compare_text a.media_key b.media_key))
        (select
          (λ r.
            backed_up_with_a_hash r && sql_is r.sha256 (some sha256) && not (r.media_key == key))
          db.media_items))) [ [] ↦ none | r ∷ rs ↦ some (scan_item r) ]

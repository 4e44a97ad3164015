-- ===== src/Syncer/Library.antt =====
-- internal/syncer/library.go: the walk of the timeline, and what it may write off.
pub mod Timeline
mod Coverage
pub mod Departures
use gpb.Errors.{Result, ok, err, Failure, ◌>>=◌}
use gpb.Common.{
  ℕ, zero, suc, ◌+◌, ◌-◌, ◌*◌, Bool, true, false, ◌&&◌, ◌||◌, not, Option, none, some, List, [],
  ◌∷◌, ◌++◌, map, String, ◌==◌, nat_eq, string_eq, if◌then◌else◌, contains, select, exists, ltb,
  leb, is_some, get_or,
}
use gpb.Store.Rows.{Album, Db, library_id}
use gpb.Store.Items.{upsert_item}
use gpb.Store.Albums.{mark_library_walked_in_full, mark_album_synced}
use gpb.Store.Membership.{link_item_to_album, album_members, reconcile}
use gpb.Syncer.Source.{Listed, ItemPage, Source, to_store_item}

abbrev pub hour : ℕ
hour = 3_600_000_000_000

-- The oldest capture around the date bound, in nanoseconds.
abbrev pub boundary_wobble : ℕ
boundary_wobble = 48 * hour

abbrev pub full_walk_interval : ℕ
full_walk_interval = 7 * 24 * hour - 12 * hour

-- walksNewOnly. A walk in the future counts as recent, as a negative difference does in Go.
unfoldable pub walks_new_only : Album → ℕ → Bool
walks_new_only library now =
    if not library.new_only || library.walked_in_full_at == 0
    then false
    else if not library.weekly_full_walk
    then true
    else ltb now (library.walked_in_full_at + full_walk_interval)

abbrev pub oldest_with : ℕ → Listed → ℕ
oldest_with oldest item =
    if not (item.captured_at == 0) && (oldest == 0 || ltb item.captured_at oldest)
    then item.captured_at
    else oldest

-- The loop of knownGround, from the oldest capture found so far.
pub known_ground_from : ℕ → List Listed → List (String × ℕ) → ℕ × Bool
known_ground_from oldest [] members = (oldest, not (oldest == 0))
known_ground_from oldest (item ∷ page) members =
    let rest = known_ground_from (oldest_with oldest item) page members in
    if exists (λ m. m.0 == item.media_key) members then rest else (0, false)

unfoldable pub known_ground : List Listed → List (String × ℕ) → ℕ × Bool
unfolding known_ground_from
known_ground = known_ground_from 0

unfoldable pub later : ℕ → ℕ → ℕ
later a b = if ltb b a then a else b

unfoldable pub reconcilable_from : ℕ → Bool → ℕ
reconcilable_from since walked_it_all = if walked_it_all then since else since + boundary_wobble

unfoldable pub older_than : Listed → ℕ → Bool
older_than item since =
    not (since == 0) && not (item.captured_at == 0) && ltb item.captured_at since

unfoldable pub reconcilable : ℕ → ℕ → Bool
reconcilable captured vouched_from =
    if vouched_from == 0
    then true
    else if captured == 0
    then false
    else not (ltb captured vouched_from)

-- departures, in the order of the membership: Go's map gives them in no order.
unfoldable pub departures : List (String × ℕ) → List String → ℕ → List String
unfolding reconcilable
departures [] seen vouched_from = []
departures ((key, captured) ∷ members) seen vouched_from =
    if contains key seen || not (reconcilable captured vouched_from)
    then departures members seen vouched_from
    else key ∷ departures members seen vouched_from

pub last_older : List Listed → ℕ → Bool
unfolding older_than
last_older [] since = false
last_older (item ∷ []) since = older_than item since
last_older (item ∷ next ∷ page) since = last_older (next ∷ page) since

unfoldable pub walked_past_the_bound : List Listed → ℕ → Bool
unfolding last_older
walked_past_the_bound = last_older

-- What a walk of the library holds between two pages.
pub record Walk : Type 0 where
  pub db : Db
  pub seen : List String
  pub listed : ℕ

-- The loop over the items of a page.
unfoldable pub record_page : ℕ → ℕ → List Listed → Walk → Walk
record_page since at [] w = w
record_page since at (item ∷ items) w = record_page since at items (
    if older_than item since then w else record {
      db = link_item_to_album library_id item.media_key (upsert_item (to_store_item item) at w.db);
      seen = item.media_key ∷ w.seen;
      listed = w.listed + 1;
    })

-- How a walk ended: at the end of the timeline, at the date bound, or at ground already held.
pub data Ending : Type 0 where
  whole bound : Ending
  held : ℕ → Ending

pub data Outcome : Type 0 where
  walked : Ending → Walk → Outcome
  failed : Failure → Walk → Outcome

abbrev held_ending : ℕ × Bool → Bool → Option Ending
held_ending (reached, true) true = some (held reached)
held_ending (reached, true) false = none
held_ending (reached, false) new_only = none

-- The tests after a page, in their order; `none` goes on to the next page.
unfoldable pub page_ends : Bool → ℕ → List (String × ℕ) → ItemPage → Option Ending
page_ends new_only since members page =
    if page.next_token == ""
    then some whole
    else if walked_past_the_bound page.items since
    then some bound
    else held_ending (known_ground page.items members) new_only

-- The loop over the pages; `none` where the fuel, one unit for a page, runs out.
unfoldable pub walk_pages :
    Source → Bool → ℕ → ℕ → List (String × ℕ) → ℕ → String → Walk → Option Outcome
unfolding record_page page_ends
walk_pages source new_only since at members zero token w = none
walk_pages source new_only since at members (suc fuel) token w = elim (source.timeline token) [
  | err e ↦ some (failed e w)
  | ok page ↦ elim (page_ends new_only since members page) [
    | some ending ↦ some (walked ending (record_page since at page.items w))
    | none ↦
        walk_pages source new_only since at members fuel page.next_token
          (record_page since at page.items w)
  ]
]

-- The oldest capture that a walk which ended so can be believed about.
unfoldable pub vouched_from : ℕ → Ending → ℕ
unfolding later reconcilable_from
vouched_from since whole = reconcilable_from since true
vouched_from since bound = reconcilable_from since false
vouched_from since (held from) =
    later (reconcilable_from since false) (reconcilable_from from false)

-- reconcileLibrary
unfoldable pub reconcile_library : ℕ → List String → ℕ → Db → Db
reconcile_library listed gone at db =
    if listed == 0 then db else (reconcile library_id gone at db).0

abbrev pub is_held : Ending → Bool
is_held (held from) = true
is_held _ = false

-- What follows the loop of listLibrary.
unfoldable pub finish_walk : ℕ → ℕ → List (String × ℕ) → Ending → Walk → Db
unfolding departures vouched_from reconcile_library
finish_walk since at members ending w =
    let reconciled =
      reconcile_library w.listed (departures members w.seen (vouched_from since ending)) at w.db in
    mark_album_synced library_id at
      (if is_held ending then reconciled else mark_library_walked_in_full at reconciled)

-- listLibrary: the tables it leaves, how many items it listed, and its error.
unfoldable pub list_library : Source → ℕ → Album → ℕ → Db → Option (Db × ℕ × Option Failure)
unfolding walk_pages finish_walk
list_library source fuel library at db =
    let members = album_members db library_id in
    elim (walk_pages source (walks_new_only library at) library.since at members fuel ""
      (record { db = db; seen = []; listed = 0 })) [
        | none ↦ none
        | some (failed e w) ↦ some (w.db, w.listed, some e)
        | some (walked ending w) ↦
            some (finish_walk library.since at members ending w, w.listed, none)
      ]

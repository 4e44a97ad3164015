-- ===== src/Syncer/Download/Charges.antt =====
-- What one download of internal/syncer/queue.go leaves of its item's row, and which attempt settles it.
use gpb.Errors.{Result, ok, err, Failure}
use gpb.Common.{
  ℕ, zero, suc, ◌+◌, ◌<◌, ◌≡◌, ◌⊎◌, refl, sym, ◌∙◌, inl, inr, subst, max, Bool, true, false, not,
  Option, none, some, String, ◌==◌, ==_iff, ==_refl, string_eq, nat_eq, arith, Bool-cases,
}
use gpb.Store.Rows.{Db, Row, downloading, done, state_eq, null_empty}
use gpb.Store.Items.{unless_written_off}
use gpb.Store.Membership.{album_for_item}
use gpb.Store.Upsert.{row_of}
use gpb.Store.DownloadPath.{Write, write, rewritten, write-some, sets, downloads, fails}
use gpb.Syncer.Retry.{Backoff, retryable}
use gpb.Syncer.Download.{
  Downloaded, Surroundings, attempts, wait_before, landed, record_success, record_failure,
  not_followed, download_one, permission_album, or_error,
}

-- An answer after which there is no other attempt.
abbrev pub is_final : Result Downloaded → Bool
is_final (ok result) = true
is_final (err cause) = not (retryable cause.kind)

Result-cases :
    (r : Result Downloaded)
    → ((d : Downloaded) × (r ≡ ok d)) ⊎ ((cause : Failure) × (r ≡ err cause))
Result-cases (ok d) = inl (d, refl)
Result-cases (err cause) = inr (cause, refl)

module _ (backoff : Backoff) (around : Surroundings) (album : String)
    (uncut : (n d : ℕ) → around.pause n d ≡ none) where
  waits : (attempt : ℕ) (last : Option Failure) → wait_before backoff around attempt last ≡ none
  waits attempt none = refl
  waits attempt (some cause) = uncut attempt _

  attempts-final :
      (left attempt : ℕ) (last : Option Failure)
      → is_final (around.fetch album attempt) ≡ true
      → attempts backoff around album (suc left) attempt last ≡ around.fetch album attempt
  unfolding attempts
  attempts-final left attempt last f =
      ground (arith, f, waits attempt last, Result-cases (around.fetch album attempt))

  attempts-again :
      (left attempt : ℕ) (last : Option Failure)
      → is_final (around.fetch album attempt) ≡ false
      → (cause : Failure) × (attempts backoff around album (suc left) attempt last
          ≡ attempts backoff around album left (attempt + 1) (some cause))
  unfolding attempts
  attempts-again left attempt last f = elim (Result-cases (around.fetch album attempt)) [
    | inl (d, e) ↦ ground (arith, e, f)
    | inr (cause, e) ↦ (cause, ground (arith, e, f, waits attempt last))
  ]

  attempts-from :
      (left attempt more : ℕ) (last : Option Failure)
      → more < left
      → ((n : ℕ) → n < attempt + more → is_final (around.fetch album n) ≡ false)
      → is_final (around.fetch album (attempt + more)) ≡ true
      → attempts backoff around album left attempt last ≡ around.fetch album (attempt + more)
  attempts-from zero attempt more last lt before final = ground (arith, lt)
  attempts-from (suc left) attempt zero last lt before final =
      let e : attempt + 0 ≡ attempt = omega arith in
      rw e (
        attempts-final left attempt last
          (subst (λ n. is_final (around.fetch album n) ≡ true) e final))
  attempts-from (suc left) attempt (suc more) last lt before final =
      let e : attempt + suc more ≡ attempt + 1 + more = omega arith in
      let (cause, again) = attempts-again left attempt last (before attempt (ground arith)) in
      again
      ∙ rw e (
          attempts-from left (attempt + 1) more (some cause) (ground (arith, lt))
            (λ n below. before n (ground (arith, below)))
            (subst (λ n. is_final (around.fetch album n) ≡ true) e final))

-- Where no wait is cut short, the first answer that no other attempt could better, a file or an
-- error that is not worth another, is the download's, if the attempts allowed reach it.
pub attempts-first :
    (backoff : Backoff) (around : Surroundings) (album : String) (max_attempts settled : ℕ)
    → ((n d : ℕ) → around.pause n d ≡ none)
    → settled < max 1 max_attempts
    → ((n : ℕ) → n < settled → is_final (around.fetch album n) ≡ false)
    → is_final (around.fetch album settled) ≡ true
    → attempts backoff around album (max 1 max_attempts) 0 none ≡ around.fetch album settled
attempts-first backoff around album max_attempts settled uncut lt before final =
    let e : 0 + settled ≡ settled = omega arith in
    subst (λ n. attempts backoff around album (max 1 max_attempts) 0 none ≡ around.fetch album n) e
      (attempts-from backoff around album uncut (max 1 max_attempts) 0 settled none lt
        (λ n below. before n (ground (arith, below)))
        (subst (λ n. is_final (around.fetch album n) ≡ true) (sym e) final))

-- The row as the success of a download leaves it: its file, at an instant, and no failure counted. A hash
-- that is the empty string is NULL.
abbrev pub IsBackedUp : Downloaded → ℕ → Row → Row → Type 0
IsBackedUp d now r r' =
    (r'.state ≡ unless_written_off r.state done)
    × (r'.local_path ≡ some d.path)
    × (r'.size_bytes ≡ some d.size)
    × (r'.sha256 ≡ null_empty d.sha256)
    × (r'.downloaded_at ≡ some now)
    × (r'.fail_count ≡ 0)

-- What the attempts at an item come to, which are made through the album that grants it.
abbrev pub fetched : Backoff → ℕ → Surroundings → String → Db → Result Downloaded
fetched backoff max_attempts around key db =
    attempts backoff around (permission_album (album_for_item db key)) (max 1 max_attempts) 0 none

-- What a download returns for a file, of the answer of LocateOne.
abbrev pub IsLocated : Option Failure → ℕ → Result ℕ → Type 0
IsLocated located size result =
    ((located ≡ none) × (result ≡ ok size))
    ⊎ ((cause : Failure) × (located ≡ some cause) × (result ≡ err cause))

or_error-IsLocated :
    (size : ℕ) (located : Option Failure) → IsLocated located size (or_error size located)
or_error-IsLocated size none = inl (refl, refl)
or_error-IsLocated size (some cause) = inr (cause, refl, refl)

-- The row as a failure of the item leaves it.
abbrev pub IsCharged : Row → Row → Failure → Type 0
IsCharged r r' cause = (r'.fail_count ≡ r.fail_count + 1) × (r'.last_error ≡ some cause.message)

written :
    (key : String) (w : Write) (db : Db) (r : Row)
    → row_of key db ≡ some r
    → (after : Db) × (write key w db ≡ ok after) × (row_of key after ≡ some (rewritten w r))
written key w db r h =
    let (after, wrote, rows) = write-some key w db r h in
    (after, wrote, ground (arith, rows key, ==_refl key))

-- One download of an item that has a row ends in one of four ways. The attempts brought a file: the row
-- holds its path, size, hash and the instant, and counts no failure; the result is its size, or the error
-- of LocateOne, which comes after the row is written. The attempts brought an error, which is the result:
-- in a run that goes on it is charged to the item once, with its message, and in a run that is over it is
-- charged to nothing. Or the item is in no followed album: it is refused, and its row is untouched.
pub download_one_lem :
    (backoff : Backoff) (max_attempts : ℕ) (around : Surroundings) (key : String) (db : Db)
    (r : Row)
    → row_of key db ≡ some r
    → (after : Db) × (result : Result ℕ) × (r' : Row) × (download_one backoff max_attempts around
          key db
        ≡ (after, result))
      × (row_of key after ≡ some r')
      × (((d : Downloaded) × (fetched backoff max_attempts around key db ≡ ok d)
            × IsBackedUp d around.now r r'
            × IsLocated (around.locate (landed key d)) d.size result)
          ⊎ ((cause : Failure) × (fetched backoff max_attempts around key db ≡ err cause)
              × (result ≡ err cause)
              × (around.ctx_over ≡ false)
              × IsCharged r r' cause)
          ⊎ ((cause : Failure) × (fetched backoff max_attempts around key db ≡ err cause)
              × (result ≡ err cause)
              × (around.ctx_over ≡ true)
              × (r'.fail_count ≡ r.fail_count))
          ⊎ ((album_for_item db key ≡ "") × (result ≡ err not_followed) × (after ≡ db)))
unfolding download_one record_success record_failure
download_one_lem backoff max_attempts around key db r h =
    let album = album_for_item db key in
    elim (Bool-cases (album == "")) [
      | inl e ↦ (
        db,
        err not_followed,
        r,
        rw (e, download_one) refl,
        h,
        inr (inr (inr ((==_iff album "").0 e, refl, refl))),
      )
      | inr e ↦
          let (marked, wrote, found) = written key (sets downloading) db r h in
          let r1 = rewritten (sets downloading) r in
          elim (Result-cases
            (attempts backoff around (permission_album album) (max 1 max_attempts) 0 none)) [
              | inl (d, e') ↦
                  let (after, wrote', found') =
                    written key (downloads (landed key d) around.now) marked r1 found in
                  (
                    after,
                    or_error d.size (around.locate (landed key d)),
                    _,
                    ground (arith, e, wrote, e', wrote'),
                    found',
                    inl (
                      d,
                      e',
                      (ground arith, refl, refl, refl, refl, refl),
                      or_error-IsLocated d.size (around.locate (landed key d)),
                    ),
                  )
              | inr (cause, e') ↦ elim (Bool-cases around.ctx_over) [
                | inl over ↦ (
                  marked,
                  err cause,
                  r1,
                  ground (arith, e, wrote, e', over),
                  found,
                  inr (inr (inl (cause, e', refl, over, refl))),
                )
                | inr on ↦
                    let (after, wrote', found') =
                      written key (fails cause.message) marked r1 found in
                    (
                      after,
                      err cause,
                      _,
                      ground (arith, e, wrote, e', on, wrote'),
                      found',
                      inr (inl (cause, e', refl, on, (refl, refl))),
                    )
              ]
            ]
    ]

-- ===== src/Syncer/Verify/Digests.antt =====
-- internal/syncer/verify.go: reading each file once is as good as reading each name, and the counts add up.
use gpb.Errors.{Failure}
use gpb.Common.{
  ℕ, suc, ◌+◌, ◌≡◌, refl, sym, subst, ap, ◌∙◌, inl, inr, Option, none, some, List, [], ◌∷◌, String,
  ◌==◌, ==_iff, string_eq, nat_eq, find, length, length-append, All, arith, Bool-cases,
  Option-cases,
}
use gpb.Store.Rows.{MediaItem}
use gpb.Syncer.Duplicates.{Digest, digest, absent, unreadable}
use gpb.Syncer.Verify.{
  Files, Stat, not_there, stat_failed, there, Digests, Verification, missing_file, corrupt_file,
  unreadable_file, remembered, hash_of_stat, hash, judged, checked_once, unless_cancelled,
  verify_each, nothing_yet,
}

-- Every digest that is remembered is the one of each path with its identity.
AreCurrent : Files → Digests → Type 0
AreCurrent files digests =
    All
      (λ seen.
        (path : String) → files.stat path ≡ there (some seen.0) → files.reads path ≡ digest seen.1)
      digests

-- What a path reads as when nothing is remembered.
abbrev pub read_of_stat : Files → String → Stat → Digest
read_of_stat files path not_there = absent
read_of_stat files path (stat_failed message) = unreadable message
read_of_stat files path (there identity) = files.reads path

-- The sweep that reads every name.
unfoldable pub verify_by_reading :
    Files → List MediaItem → Verification → Verification × Option Failure
verify_by_reading files [] report = (report, none)
verify_by_reading files (item ∷ items) report =
    let rest = verify_by_reading files items (
      checked_once files item report
        (read_of_stat files item.local_path (files.stat item.local_path))) in
    unless_cancelled (files.cancelled report.checked) report rest

-- The counts of a report add up.
abbrev pub IsTallied : Verification → Type 0
IsTallied report = report.checked ≡ report.intact + report.unhashed + length report.problems

judged-counts :
    (files : Files) (item : MediaItem) (report : Verification) (found : Digest)
    → report.checked ≡ suc (report.intact + report.unhashed + length report.problems)
    → IsTallied (judged files item report found)
judged-counts files item report absent h =
    omega
      (arith, h, length-append report.problems (record { item = item; fault = missing_file } ∷ []))
judged-counts files item report (unreadable message) h =
    omega (
      arith,
      h,
      length-append report.problems (record { item = item; fault = unreadable_file } ∷ []),
    )
judged-counts files item report (digest found) h = elim (Bool-cases (item.sha256 == "")) [
  | inl e ↦ rw e (omega (arith, h))
  | inr e ↦ elim (Bool-cases (files.equal_fold found item.sha256)) [
    | inl i ↦ rw (e, i) (omega (arith, h))
    | inr i ↦
        rw (e, i)
          (omega (
            arith,
            h,
            length-append report.problems (record { item = item; fault = corrupt_file } ∷ []),
          ))
  ]
]

checked_once-IsTallied :
    (files : Files) (item : MediaItem) (report : Verification) (found : Digest)
    → IsTallied report
    → IsTallied (checked_once files item report found)
unfolding checked_once
checked_once-IsTallied files item report found h =
    judged-counts files item (record report { checked = report.checked + 1 }) found
      (omega (arith, h))

-- A sweep's counts add up, also where its context is cancelled: each file that was checked is intact, is
-- without a recorded hash, or is one problem.
pub verify_each-IsTallied :
    (files : Files) (items : List MediaItem) (digests : Digests) (report : Verification)
    → IsTallied report
    → IsTallied ((verify_each files items digests report).0)
unfolding verify_each
verify_each-IsTallied files [] digests report h = h
verify_each-IsTallied files (item ∷ items) digests report h =
    elim (Option-cases (files.cancelled report.checked)) [
      | inl e ↦
          rw e
            (verify_each-IsTallied files items _ _ (checked_once-IsTallied files item report _ h))
      | inr (cause, e) ↦ rw e h
    ]

module _ (files : Files)
    (same_file : (path other : String) (identity : ℕ)
      → files.stat path ≡ there (some identity)
      → files.stat other ≡ there (some identity)
      → files.reads path ≡ files.reads other) where
  find-AreCurrent :
      (path : String) (identity : ℕ) (digests : Digests) (seen : ℕ × String)
      → AreCurrent files digests
      → files.stat path ≡ there (some identity)
      → find (λ s. s.0 == identity) digests ≡ some seen
      → files.reads path ≡ digest (seen.1)
  unfolding AreCurrent
  find-AreCurrent path identity [] seen h s e = ground (arith, e)
  find-AreCurrent path identity (first ∷ digests) seen h s e =
      elim (Bool-cases (first.0 == identity)) [
        | inl i ↦
            let same : first ≡ seen = ground (arith, e, i) in
            subst (λ x. files.reads path ≡ digest (x.1)) same
              (h.0 path (s ∙ ap (λ n. there (some n)) (sym ((==_iff first.0 identity).0 i))))
        | inr i ↦ find-AreCurrent path identity digests seen h.1 s (ground (arith, e, i))
      ]

  remembered-AreCurrent :
      (path : String) (identity : ℕ) (digests : Digests) (found : Digest)
      → AreCurrent files digests
      → files.stat path ≡ there (some identity)
      → files.reads path ≡ found
      → AreCurrent files (remembered identity found digests)
  unfolding AreCurrent
  remembered-AreCurrent path identity digests absent h s e = h
  remembered-AreCurrent path identity digests (unreadable message) h s e = h
  remembered-AreCurrent path identity digests (digest found) h s e =
      ((λ other t. sym (same_file path other identity s t) ∙ e), h)

  hash-AreCurrent :
      (path : String) (stat : Stat) (digests : Digests)
      → files.stat path ≡ stat
      → AreCurrent files digests
      → ((hash_of_stat files path digests stat).0 ≡ read_of_stat files path stat)
        × AreCurrent files ((hash_of_stat files path digests stat).1)
  hash-AreCurrent path not_there digests s h = (refl, h)
  hash-AreCurrent path (stat_failed message) digests s h = (refl, h)
  hash-AreCurrent path (there none) digests s h = (refl, h)
  hash-AreCurrent path (there (some identity)) digests s h =
      elim (Option-cases (find (λ s. s.0 == identity) digests)) [
        | inl e ↦
            rw e (refl, remembered-AreCurrent path identity digests (files.reads path) h s refl)
        | inr (seen, e) ↦ rw e (sym (find-AreCurrent path identity digests seen h s e), h)
      ]

  each-equivalent :
      (items : List MediaItem) (digests : Digests) (report : Verification)
      → AreCurrent files digests
      → verify_each files items digests report ≡ verify_by_reading files items report
  unfolding verify_each verify_by_reading hash
  each-equivalent [] digests report h = refl
  each-equivalent (item ∷ items) digests report h =
      let (same, current) =
        hash-AreCurrent item.local_path (files.stat item.local_path) digests refl h in
      elim (Option-cases (files.cancelled report.checked)) [
        | inl e ↦ rw (e, same) (each-equivalent items _ _ current)
        | inr (cause, e) ↦ rw e refl
      ]

  -- Where the names of one file read alike, a sweep that reads each file once reports what one that reads
  -- every name reports.
  pub verify_each-by_reading :
      (items : List MediaItem)
      → verify_each files items [] nothing_yet ≡ verify_by_reading files items nothing_yet
  unfolding AreCurrent
  verify_each-by_reading items = each-equivalent items [] nothing_yet tt

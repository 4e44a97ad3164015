-- ===== src/Lib.antt =====
-- gpb keeps a local backup of a Google Photos account. A run has two halves that work at the same
-- time: the listing, which asks Google for the albums and for the photos of the followed albums
-- and of the library timeline and records them in a SQLite store, and the downloading, which
-- fetches what the store says is owed. What a complete listing no longer names is written off,
-- never deleted; one command deletes files, and only copies of photos that are still backed up.
--
-- Which file models which part:
-- - Errors: the kinds of error that the code tells apart by errors.Is and errors.As, of
--   internal/gphotos, internal/syncer and internal/store. A wrapped error keeps its kind and has
--   another message.
-- - Store.Rows: the tables of internal/store/migrations as lists of rows, and the structs of
--   items.go and albums.go. Store.Items, Store.Albums, Store.Membership, Store.Review,
--   Store.ReviewPage and Store.Twins: the statements of internal/store/items.go, albums.go,
--   review.go, twins.go and copies.go, each a function on the tables. Store.WellFormed,
--   Store.Invariant, Store.Spent, Store.Retirement, Store.Upsert, Store.DownloadPath,
--   Store.WriteOff, Store.Work, Store.Queue, Store.ReviewPage.Offered, Store.Instructions and
--   Store.Copies prove about them.
-- - Syncer.Source: what internal/gphotos answers to a listing. The upstream is a record of
--   functions from page tokens to answers, a parameter of everything that asks it.
-- - Syncer.Library: internal/syncer/library.go; Syncer.Library.Timeline, Syncer.Library.Coverage
--   and Syncer.Library.Departures prove about it. Syncer.Listing: internal/syncer/listing.go;
--   Syncer.Listing.Caution and Syncer.Listing.Accounts prove about it.
-- - Syncer.Retry and Syncer.Retry.Streaks: internal/syncer/retry.go. Syncer.Queue,
--   Syncer.Queue.Offers, Syncer.Queue.Feeding, Syncer.Download and Syncer.Download.Charges:
--   internal/syncer/queue.go.
-- - Syncer.Run and Syncer.Run.Judgement: the listing half of a run, worseOf of
--   internal/syncer/syncer.go and outcomeOf of report.go. Syncer.Duplicates and
--   Syncer.Duplicates.Deletion: internal/syncer/twins.go.
-- - Web.Guard and Web.Guard.Lockout: internal/web/loginguard.go and checkLoginPassword of
--   login.go. Web.Sessions and Web.Sessions.Liveness: internal/store/sessions.go.
-- - Syncer.Verify: internal/syncer/verify.go; Syncer.Verify.Digests and Syncer.Verify.Repair prove
--   about it. Syncer.Paths and Syncer.Paths.Safety: safeName of internal/syncer/paths.go.
--   Store.Runs: internal/store/runs.go.
-- - Daemon.Runner and Daemon.OneRun: the slot of internal/daemon/runner.go. Daemon.Schedule and
--   Daemon.Owed: backupOwed of daemon.go and recordFailureToStart of runner.go.
-- - Web.AlbumSort, Web.AlbumSort.Arrangement and Web.AlbumSort.Links: internal/web/albumsort.go.
-- - Geo.Bytes: a byte slice whose index out of range is a panic, and the bit patterns of an int64.
--   Geo.Tiff and Geo.Segments: internal/geo/geo.go; Geo.Boxes, Geo.Heic, Geo.Movie and
--   Geo.Iso6709: internal/geo/isobmff.go; Geo.Reading: Read of geo.go and readISOBMFF.
--   Geo.Ensures, Geo.TiffSafety, Geo.SegmentWalk, Geo.BoxWalk, Geo.HeicSafety, Geo.MovieSafety,
--   Geo.Iso6709Laws and Geo.ReadingSafety prove about them.
-- - Gphotos.Json: the values of encoding/json. Gphotos.Tree: internal/gphotos/drift.go;
--   Gphotos.Items: items.go and timeline.go; Gphotos.Albums: albums.go and shared.go;
--   Gphotos.Frames: batchexecute.go. Gphotos.Strictness, Gphotos.Pages, Gphotos.Redaction,
--   Gphotos.DriftPrivacy, Gphotos.Privacy and Gphotos.Answers prove about them.
-- - Common: helpers. Tests: the theorems at concrete values.
--
-- How state and operations correspond: a store call is a function from Db, the four tables, to Db,
-- to a Result where the code checks for one affected row, or to what a query reads. An instant is
-- the count of nanoseconds since Go's zero time, so 0 is the time for which IsZero() holds; a
-- nullable column is an Option. An UPDATE whose right-hand side reads the same table rewrites the
-- rows in table order, and each row sees the rows rewritten before it. The sets and maps of Go are
-- lists, in an order that nothing depends on. Waits, jitter, file contents, the context of a run
-- and the answers of Google are parameters. Concurrency appears as the steps of the daemon's
-- runner, one for each critical section and one for a Done of its WaitGroup, in any order; as the
-- order of the answers that the feeder of downloads is given, and as the order of the attempts
-- that the circuit breaker is told of.
--
-- Bounds and fuel: a time.Duration in retry.go is the bit pattern of an int64, and its shift wraps
-- around at 2^64. A position in a file of internal/geo, and a number of internal/gphotos, is the
-- bit pattern of an int64; the float64 arithmetic of internal/geo and the conversions of a float64
-- in internal/gphotos are parameters. Counts are unbounded. A loop over pages runs on fuel, one
-- unit for a page, since the number of pages is Google's; it answers none where the fuel runs out,
-- and the theorem about a timeline that ends proves that as much fuel as pages is enough. A walk
-- over the segments or the boxes of a file runs on a unit of fuel for each byte of the file and
-- one or two more, which is proved enough: where it runs out, Read answers none, and a walk of the
-- children of a box an answer of its own, unfinished, and neither happens. The feeder runs on the
-- list of what it is answered, and its theorem gives the length that is enough.
--
-- Not modelled: failures of the database driver, log lines and the sentences of error messages,
-- which are a parameter; the write protocol of a download, the HTTP calls and the chunk headers of
-- Google's answers, the pages of the web server, the keepalive and the notices of the daemon, and
-- the Home Assistant bridge.
pub mod Common
pub mod Errors
pub mod Store
pub mod Syncer
pub mod Daemon
pub mod Geo
pub mod Gphotos
pub mod Web
pub mod Tests

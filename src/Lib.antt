-- ===== src/Lib.antt =====
-- A model of the Harmonixia server (a Rust service that indexes a music library, streams and
-- transcodes it, and plays it on Sonos) and what was proved of it.
--
-- The parts that are modelled and how they interact:
--   src/state.rs keeps one playback session per account behind one `RwLock`. A handler mutates it
--     by `mutate_playback_session`: the change runs on the session under the lock, the session is
--     stamped with the next sequence number, and an event that shows it is published. Handlers
--     that first send commands to a Sonos player preview the change on a copy and commit the
--     snapshot afterwards.
--   src/state.rs and src/api/events.rs number the events and filter them by account.
--   src/sonos.rs keeps a session for each Sonos player it controls. Tasks take a snapshot of a
--     session, wait for the network, and change the session if it still is the one of the
--     snapshot; a loop of rounds moves the position, notices lost players, and reports each change
--     to the account's playback session.
--   src/transcode.rs admits transcodes by a counter of slots, which a slot gives back on drop, and
--     lets one request at a time generate the output of a path while others wait on a channel.
--   src/api/media.rs reads the `Range` header of media requests, serves files, and runs the loop in
--     which requests look for generated output, generate it or wait.
--   src/state.rs signs the claims by which a Sonos player fetches media, and checks their tokens
--     against the session that src/sonos.rs keeps for the player.
--   src/pipeline.rs and src/providers.rs leave a metadata provider alone for a while after failures.
--
-- Files:
--   Prelude and its children: Boolean tests, lists and dictionaries over the native numbers, text
--     as lists of character codes, decimal numerals.
--   Errors: src/error.rs. `Outcome` is the `Result` of a handler with `panic` beside it for code
--     that aborts its thread (indexing out of bounds, an `expect` on a poisoned lock).
--   Playback/Types: the session records and enums of src/state.rs and src/domain.rs.
--   Playback/Session: the `validate_*` and `apply_playback_session_*` functions.
--   Playback/Operations: the closures that the methods of `AppState` pass to
--     `mutate_playback_session`.
--   Playback/Store: `AppStateInner` as far as sessions and events need it (the sessions, whether
--     their lock is poisoned, the counter, the events numbered and sent), `mutate_playback_session`, the
--     publishing of events, previews, and the stream of src/api/events.rs.
--   Playback/Calls: the calls as values, so that a history is a list.
--   Playback/Invariant, Preservation, SonosPreservation, Safety: well-formed sessions.
--   Playback/Effects, Answers, Preview, Transfers: what calls do that are refused, answered,
--     previewed, or transfer the playback. Playback/Events, Stream: what is announced, and to whom.
--   Transcode/Admission and its Bounds: `TranscodeAdmission` and `TranscodeSlot`.
--   Transcode/Generation: `HlsGenerationCoordinator` with its guards and waiters. The channels of
--     tokio are a parameter, `Watch`. Leases has the coordinator under any sequence of joins, drops
--     and polls and the abstract machine that it refines (Refinement); Single is about the list of
--     leases, Coherence and Departures about the channels and the table.
--   Media/Range with Reading, Bounds, RoundTrip: `parse_range_header`.
--   Media/Names with Components, Quoting: names of segments, path fragments, the
--     `Content-Disposition` header. Media/Paths: the output directories and `hls_segment`.
--   Media/Responses with Headers, Served: `serve_original_media_file` and
--     `serve_downloadable_transcode_file`, from the opened file to the response.
--   Media/Serving: the loop of `hls_manifest`, which `download_transcode` repeats, as a pool of
--     requests over the coordinator, the slots and the files. Pool, Invariant, Steps, Cancels and Sound are
--     about what is generated, Released about requests that wait.
--   Names: the enumerations of src/domain.rs. Stored and Catalog have their names in src/storage.rs
--     and src/catalog.rs, Api those of `FromStr`; Matched, StoredExact, CatalogExact, Exact, Spelling say which texts are read.
--   Sonos/Types, Session, Changes: `ManagedSonosSession` and the closures that change one, with
--     `ManagedSonosSessionRollback`; Changes/Rollback is about the latter.
--   Sonos/Rounds with Clock, Reconnect, Lag: `reconcile_active_sessions` on one session: a player
--     that answers, that does not, and one that answers again, for which
--     `resume_reconnected_session` starts the item anew.
--   Sonos/Sessions with Table, Stale: `ManagedSonosSessions`, a table by player.
--   Sonos/System with Steps, Invariant, Closures, Preservation, Soundness: the tasks, interleaved.
--     Every snapshot, rollback and replaced session is kept, so that a task may go on at any later
--     moment. The start of a session is the part after its media was prepared; its generation and
--     its UUID are given.
--   Sonos/Claims with Bound, Slots: signed claims against the session at hand (src/state.rs too).
--     Sonos/Claims/Tokens: `SonosSignedMediaRuntime`, with JSON, base64 and SHA-256 as parameters,
--     and `validate_sonos_signed_media_token`.
--   Sonos/Report: `sync_shared_session_snapshot`. Sonos/Summary:
--     `session_summary_from_parts`. Sonos/Refresh: `SonosRefreshTracker`.
--   Providers/Backoff and its Waiting: `apply_provider_execution_outcome` of src/pipeline.rs and
--     `reconcile_provider_readiness` of src/providers.rs.
--   Each Tests module runs the definitions on concrete values.
--
-- Conventions. A `u32` or `u64` is a native number; where the code adds, the wrap-around or the
-- saturation is written out. A UUID is a number; a time is a number, of nanoseconds where the code
-- uses `Instant`; a new UUID and the current time are arguments of the operations. A `HashMap` is
-- an association list. Every method of the session stores runs under one write lock and every
-- method of the admission counter under one mutex, so concurrent calls are sequences of steps; so
-- does every method of the generation coordinator. Nothing recurses but over lists, so no fuel is
-- needed. An event has its number and is pending before it is sent; the sending is a step of its
-- own, which may come at any later moment and in any order, since the code sends after it has
-- released the lock.
--
-- What is not under src/ is a parameter: the record `Watch` of Transcode/Generation, the record
-- `Formats` of Sonos/Claims/Tokens, the test of `HeaderValue::from_str` (of which it is used that
-- visible ASCII passes) and the outcomes of the file system in Media/Responses. Tests modules give
-- concrete ones.
--
-- Not modelled: the database, the network, ffmpeg, Argon2, the file system, and the parts of the
-- server that only pass values between them (HTTP routing, OpenAPI documents, the admin pages).
-- Of Sonos: the commands sent to the players and discovery (network), and the building of queues
-- from the database. Of generation: the renaming of ffmpeg's output into place, which is a part of
-- how a generation ends. Accounts, the rest of the import pipeline, the configuration, and the
-- resolution of original files against the roots have logic of their own and are not modelled
-- either.

pub mod Prelude
pub mod Errors
pub mod Transcode
pub mod Media
pub mod Playback
pub mod Sonos
pub mod Names
pub mod Providers

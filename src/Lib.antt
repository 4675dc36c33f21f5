-- ===== src/Lib.antt =====
-- Verification of the Open Live API server, the control plane of a live production tool.
--
-- Clients hold WebSockets to the server; a production is activated as a flow on a Strom media
-- server, watched, and stopped by a request, by the idle watchdog or by the startup reconcile.
-- The parts modelled, with the file of the repository each stands for:
--
-- * Tally (src/services/tally.service.ts): the subscribers of each production, watch-only
--   sockets, sequence numbers, and the buffer that holds broadcasts back during a socket's
--   connect snapshot. `Hub` is the module's maps; `subscribe`, `unsubscribe`, `begin_snapshot`,
--   `end_snapshot` and `broadcast` take and return it. A socket is a number, and `sent` records
--   what reached it.
-- * Production (src/db/types.ts, src/lib/production-health.ts): the production document as far as
--   these services read and write it, its status rule and the health of its outputs.
-- * Gpu (src/services/gpu-usage.ts): GPU seconds per UTC hour, settled in a sweep, on a stop and
--   on deletion. Buckets has the arithmetic, Settle the writers and readers, Usage the response;
--   an hour's key is the instant that it prints. The loop over hours has a round for each hour
--   that begins before the end of the interval, which Spec shows to be enough. Shares describes a
--   bucket by the time that falls in its hour.
-- * Watchdog (src/services/idle-watchdog.ts): the idle timers and `deactivateProduction`; Tick
--   has the poll. It calls Tally to count operators and to broadcast, Gpu to settle, and other
--   services through `Answers` (what they reply) and `Effect` (what they are asked). The loop
--   runs over a set that it changes; two visits for each production are given as fuel and shown
--   to be enough.
-- * Ports (src/services/port-reservation.ts) and Ports/Listener (src/services/listener-ports.ts):
--   the lease of SRT listener ports from Strom, whose answers each tick is given as `Answers`,
--   and the address that a source or an output may be stored with. `Service` is the module's
--   variables. Text is parsed by a regular expression there; `Address` is what it takes an
--   address apart into. The queries for stored documents set no limit, and CouchDB returns 25
--   documents of such a query at most: they are the parameter `find`.
-- * Deactivation (src/routes/productions.ts, `deactivatedDoc` and `writeDeactivatedDoc`): the
--   document that a requested deactivation writes, and its three attempts, which read again after
--   a conflict.
-- * Reconcile (src/services/reconcile.ts): the startup comparison of the stored productions with
--   Strom's flows. A flow's description is given as the production that it names, if it names
--   one.
-- * Clips (src/services/clip-state.service.ts): the clip states and the play-pending flags, whose
--   timers are the instants at which they expire.
-- * Guests (src/services/guest-health.ts, src/services/guest-sweep.ts): the health of guest
--   seats, and the end of a production's invites and sessions.
-- * Cues (src/services/clip-cue-store.ts, and `updateProductionDoc` of
--   src/routes/productions.ts): the cue points of clips, written over conflicts.
-- * Mp4 (src/lib/mp4-duration.ts): the boxes of a file and its duration in milliseconds. Mp4
--   reads boxes, Movie the `moov` and Fragments the `moof` boxes; Scanner is
--   `Mp4DurationScanner`, whose `pos` stands beside the rest of its fields, `Machine`. Bytes are
--   numbers, and numbers beyond 2^53 stay exact. The loop of `push` has a round for each byte of
--   the chunk as fuel, and that of `boxes` one for each byte of the file: every round takes one
--   or more.
-- * Audio (src/lib/audio-channels.ts, src/lib/return-feeds.ts, and of src/lib/flow-generator.ts
--   the map of pads and the buses it stores): the audio channels of a production, the return bus
--   of each guest, and the levels that the bus hears every channel at. The key
--   `ch{N}_aux{M}_level` is the pair of N and M.
-- * Switcher (src/ws/controller.ts, src/services/automation-contract.ts): the tally and the PiPs
--   of one production and the commands CUT, TRANSITION, TAKE, SET_PVW and SELECT_PVW_PIP. The
--   controller runs these one after the other, so a command is a function from state to state
--   (`Show`), and what the database and Strom answer are its arguments. Buses describes the
--   program and the preview of a mixer, which is the contract of the requests; three attempts of
--   a write are the fuel that the controller allows itself.
-- * RateLimit (src/ws/controller.ts): the two sliding windows of one socket's messages and the
--   drop window that coalesces what they refuse. `Connection` is what the socket's context keeps,
--   with what it sent and what it handed on to handlers; `happen` is a message that arrives or
--   the clock that reaches a timer. The model begins after a message is parsed and ends before
--   its own handler, whose later ACK or NACK it leaves out. A key of `coalesceKey` is the list of
--   the parts that its text joins by `:`.
-- * Pads (src/lib/mixer-input-map.ts), Registries (src/services/pfl-state.ts,
--   src/services/whip-ingest-state.ts, src/lib/gateway-health.ts,
--   src/services/production-gate.ts) and Recordings (src/lib/recording-parts.ts): definitions
--   without theorems.
--
-- Prelude has the names of the library, lists, options, dictionaries (Dict), JSON objects (Json)
-- and text as code points (Text), which the parts share.
--
-- Times are milliseconds since 1970, as natural numbers. Requests that arrive while one poll of
-- the watchdog waits for other services are not interleaved with it: a poll is one step. A
-- conflict in the database is a value that the environment gives (`Write`).
--
-- Not modelled: HTTP routing and validation, the clients of CouchDB, Strom, S3 and the intercom
-- manager, the guest pages, the text of generated flows, clip playback, and of the WebSocket
-- controller SET_PIP, effects, graphics, faders and macros.
pub mod Prelude
pub mod Tally
pub mod Production
pub mod Gpu
pub mod Watchdog
pub mod Ports
pub mod Deactivation
pub mod Reconcile
pub mod Clips
pub mod Guests
pub mod Pads
pub mod Registries
pub mod Cues
pub mod Recordings
pub mod Mp4
pub mod Audio
pub mod Switcher
pub mod RateLimit

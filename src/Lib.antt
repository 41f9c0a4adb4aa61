-- ===== src/Lib.antt =====
-- whatsapp-connect-mcp gives agents a local copy of a WhatsApp account: a bridge fills a SQLite
-- store, MCP tools read it, and everything that is sent goes through one gate that asks a human.
--
-- The parts, and the file that models each:
--
-- - internal/gate/gate.go, the one path to an outbound send: Gate. A `State` is the Gate's limiter,
--   draft map and order, with the world behind the deliverer. Submit, commit, Approve, Discard,
--   Drafts and DeliverScheduled are the functions of Gate/Ops over Gate/Drafts (pruneExpiredLocked,
--   evictOldestLocked, storeDraftLocked) and Gate/Render (buildPreview, newDraftToken). Each returns
--   its answer and the new state. A section under the mutex is one function; Deliver is called
--   outside it. The deliverer and the token bucket are records of operations; what the rate
--   limiter documents is `IsBucket`. A history is a list of calls with their moments (Gate/Calls).
-- - internal/schedule: Schedule. The pending entries and their file (Schedule/Store), the gate that
--   admits them (Schedule/Admission: StoreDeliverer is a deliverer of the gate above), and the
--   runner (Schedule/Runner): one round of Run's loop is `runner_step`, which sends through
--   DeliverScheduled. A round happens at a given time; sleeping is the time between rounds.
-- - internal/config/config.go, internal/sessiontrust and cmd/whatsapp-connect-mcp/scope.go: the
--   settings in their two files (Access/Config), the readers that follow them (Access/Readers), the
--   edits of the scope (Access/Edits) and the session grants (Access/SessionTrust).
-- - internal/store: the tables as lists of rows in rowid order (Store/Types), the writes
--   (Store/Ingest), the folding of LIDs (Store/Fold), the queries (Store/Query, Store/Lookups,
--   Store/Poll) and the rewriting of mentions (Store/Mentions). Sorting is insertion sort by the
--   query's order.
-- - internal/mcpserv/scope.go: the store as the tools see it (Access/ScopedStore), over any store
--   of the interface `StoreApi`; Access/ScopedStore/Backed puts the queries of Store behind it.
-- - internal/target/target.go, what a person types turned into a JID: Target, over the two queries
--   it asks. internal/dashboard/pair.go, the pairing attempts of the dashboard: Dashboard/Pairing,
--   whose `Step` interleaves the requests with the attempts.
-- - internal/mcpserv/banner.go, send_tools.go and sched_tools.go, the tools that send: Tools. The
--   banner around what the tools read out (Tools/Banner), the inputs, their checks and the delivery
--   each makes (Tools/Send), the handlers on the gate (Tools/Calls), mark_read with its receipts per
--   sender (Tools/Groups, Tools/Receipts) and the tools of schedules (Tools/Schedules), on the same
--   gate with StoreDeliverer as its deliverer. Of read_tools.go, poll_new_messages (Tools/Poll).
-- - internal/bridge, between WhatsApp and the store: Bridge. The LID pairings of lid.go
--   (Bridge/Addresses) over a record of what whatsmeow does with JIDs, the reading of messages and
--   events of events.go (Bridge/Content, Bridge/Ingest, Bridge/Ingest/History) into the writes of
--   Store/Ingest, the connection of bridge.go and status.go (Bridge/Connection), the validation and
--   the sending of send.go (Bridge/Outbound, Bridge/Send), the media roots of internal/mediapath
--   (Bridge/Roots) and the downloads of bridge.go (Bridge/Download).
-- - internal/medianame/medianame.go and internal/accounts/accounts.go, where files lie: MediaNames and
--   Accounts, the latter over the entries of the data directory and of the account's one.
--
-- Prelude holds what they share: lists measured by native numbers, results, Go maps as association
-- lists, integers, texts walked by character, sorting and tables. Tests holds runs on small inputs.
--
-- Bounds and fuel: times of the gate are nanoseconds, fire times and message times are seconds,
-- both without a bound; two products wrap around as an int64, that of a delay of schedule_send and
-- that of the seconds of a rate token. Text is walked by character, which is by byte for ASCII. On
-- fuel are the printing of a decimal number (its own value), unwrapMessage (the four rounds of the
-- source), WaitForCatchUp (the polls of its grace) and poll_new_messages (240 rounds, one for each
-- second of the longest timeout). The recursion of the others is structural.
--
-- Not modelled: SQLite and its errors, LIKE and FTS5, the JSON of the files, the operating system's
-- reasons to fail (whether a write succeeds is an argument), whatsmeow and its protocol (sending,
-- uploading and downloading answer as an argument says), the pairing by QR code inside the bridge,
-- the other read tools, HTTP, the dashboard's pages, the terminal dialogue and the commands. The
-- order of concurrent calls is the order of the histories: each call of the gate is taken as one
-- step.
mod Prelude
pub mod Gate
pub mod Schedule
pub mod Store
pub mod Access
pub mod Target
pub mod Tools
pub mod Bridge
pub mod Dashboard
mod Tests
pub mod MediaNames
pub mod Accounts

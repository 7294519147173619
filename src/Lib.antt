-- ===== src/Lib.antt =====
-- The server of ida-pilot, a Go program that offers a disassembler's databases to agents as tools
-- of the Model Context Protocol. This library models the parts of the server that keep state or
-- decide, and shows what makes each correct.

-- The parts and their files:
-- - Decomp: internal/server/cache.go, `decompCache`, the bounded least-recently-used cache of
--   pseudocode that each session has. The state is the record `DecompCache` with its map, its
--   container/list and a store of list elements; `get`, `set`, `delete`, `has` and `delete_where`
--   are the methods. Decomp/Spec is the list in the order of use that it refines; Order, Invariant,
--   Purge, Refine and Bounds are the proofs.
-- - Outputs: internal/server/output_cache.go, the store of truncated outputs and its reading
--   (`put`, `get`, `clear`, `getCachedOutput`, the decision of `maybeCacheResult`). Every tool's
--   result passes through `maybe_cache_result`, and an agent reads the rest by `get_cached_output`.
--   What `json.Marshal` makes of the bytes of a chunk is a parameter.
-- - Cache: internal/server/cache.go, `sessionCache`: the lists of a database that are loaded once,
--   the pseudocode cache, references and notes, with their invalidations; Cache/Fetching is the
--   loop of `fetchAllStrings`.
-- - Edit: internal/server/write.go, what each editing tool does to the caches of its session.
-- - Paging: internal/server/server.go `normalizePagination` and `clampPage`, their use in
--   internal/server/read.go, the next offset of internal/server/format.go `formatListHeader`, and
--   the window that internal/server/types.go `getGlobals` cuts by hand.
-- - Registry: internal/session/registry.go, sessions and the two maps that find them, over a store
--   of session objects that the maps and the handlers share. Session IDs, times and cleaned paths
--   are arguments.
-- - Progress: internal/server/progress.go, the readiness gate of internal/server/util.go, the wait
--   `waitForReady`, the ready flag of internal/server/session.go `getSessionProgress`, and the
--   stages of `backgroundOpen`.
-- - Workers: internal/worker/manager.go, the map from a session to its worker.
-- - Lifecycle: internal/server/session.go and internal/server/util.go, how `openBinary`,
--   `closeBinary`, the watchdog and `RestoreSessions` (Lifecycle/Restore) move a session through
--   the registry, the workers, the records, the caches, the progress store and the tools. This is
--   where the other parts meet: the record `Server` holds their states.
-- - Requests and Dispatch: internal/server/params.go and internal/server/dispatch.go. Each
--   dispatcher turns its request into the call of one handler; Dispatch/Edits composes two of them
--   with the handlers of Edit.
-- - Lists: internal/server/read.go, the tools that list functions, imports, exports and strings,
--   from the slot of the session's cache through the filters to a page of Paging; `compileRegex`
--   and `matchModule` of internal/server/server.go. Go's regexp and its Unicode tables are the
--   record `Library`.
-- - Xrefs: internal/server/read.go `getXRefs`, with the two replies in either order.
-- - Cross: internal/server/cross.go, the search and the references across sessions.
-- - Parallel: internal/server/parallel.go, `runLabeled` and `parallelMap` for every order in which
--   their goroutines end (`Arrives`), and `inspect` of internal/server/dispatch.go, which uses the
--   former.
-- - Analysis: internal/server/session.go `beginBackgroundAnalysis`, `executeAnalysisWithHeartbeat`
--   and `withHeartbeat`, as steps of goroutines that mix freely, with the claim that
--   `backgroundOpen` makes of the guard and any stage that other code records.
-- - PathGuard: internal/server/pathguard.go, the roots under which the paths of a client have to
--   lie, over `Clean`, `Rel` and `Abs` of Go's path/filepath on a system with / between parts.
--   Symbolic links are a parameter.
-- - Composite: internal/server/composite.go. Composite, Composite/Single and Composite/Batch are
--   the analysis of one function and of several, by goroutines that share the session's cache, and
--   Composite/Result is what it shows; Composite/Edits is `annotateFunction`, the notes,
--   `pruneContext` and `pyEval`. What the worker replies about an address is the record `Worker`.
-- - Tiers: internal/server/server.go, which tools the server offers as its tier rises with the
--   first session and falls with the last. The MCP SDK's server is the interface `ToolServer`.
-- - Address and Text: internal/server/util.go `parseAddr`, `parseAddrDefault` and `hexAddr`, over
--   what they use of Go's strings and strconv.
-- - Common: names, tests on numbers, lists, keys and Go's maps.

-- Machine integers: an address is a number with its bound of 2^64 tested where strconv tests it; an
-- `int` that a client sends is an integer, and where the code adds two of them in `getCachedOutput`
-- the wrap at 2^63 is written out. `clampPage` needs none: its limit is at most 10000. The fuel of
-- `hex_digits` is 16, the number of hexadecimal digits of 64 bits; the fuel of the client loops is
-- the length plus one, and that of `fetch_all_strings` one more than the full chunks, which their
-- theorems show to be enough.

-- Not modelled: the mutexes (each method that is modelled runs under one, and is one step here),
-- logging, the text of messages, JSON text, the calls of the worker process, and the handlers that
-- only pass them on.

pub mod Common
pub mod Text
pub mod Address
pub mod Decomp
pub mod Cache
pub mod Edit
pub mod Outputs
pub mod Paging
pub mod Progress
pub mod Registry
pub mod Xrefs
pub mod Cross
pub mod Analysis
pub mod PathGuard
pub mod Lists
pub mod Parallel
pub mod Requests
pub mod Dispatch
pub mod Tiers
pub mod Workers
pub mod Lifecycle
pub mod Composite

-- ===== src/Lib.antt =====
-- The dashboard and the coordinator of relay-local: what makes the figures, the navigation and the
-- answers of the one, and the routing of requests by the other, right.
--
-- Relay shares the language models of a machine with others. A coordinator (internal/coordinator, in
-- Go) takes chat requests from clients. For each it chooses a host that is connected and has room,
-- sends the request over the host's connection, and passes the chunks of the response on; it may try
-- one more host as long as nothing was written. The messages are those of protocol/protocol.go. An
-- agent on each host answers them and records each request. The dashboard (frontend/src, one page of
-- React) asks the agent for its status, models, usage, history, prices and configuration every two
-- seconds, computes all its figures from that answer in frontend/src/stats.ts, and shows one of eight
-- tabs.
--
-- Files and code:
--   Prelude    shared names, lists and integers over the native numbers; Sort (the order of
--              `Array.sort`), Splice (`Array.splice`, and moving one element), Counts (of a list that
--              is changed)
--   Number     floating-point numbers, as operations without laws
--   LocalTime  `Date`, as operations, with the laws of a calendar where they are needed
--   Js         values that JSON stores, the browser's storage, and what JSON promises
--   Api        the data of frontend/src/api.ts: Server (what the application keeps), Names (titles of
--              runtimes), Request (`api`)
--   Stats      frontend/src/stats.ts: Events (filters, tokens), Price (asking prices, revenue,
--              throughput), Buckets (`bucketsFor`, `findIndex`), Series (`series`), Percentile
--              (`percentile`, with its doubles), PerModel (`perModel`), Days (`tokensPerDay`),
--              Labels (`axisLabels`); the modules below each hold its proofs
--   Sidebar    frontend/src/main.tsx: `loadNavOrder` and the handlers of `Sidebar`; Arrangement (the
--              loaded order), Dragging (the invariant and a drop), Reload (what a later visit loads)
--   Samples    a calendar of days of equal length, numbers counted in millionths, a history and a JSON
--              notation, a host and what it sends, a machine with its configuration, for the tests
--   App        frontend/src/main.tsx: `App`; Trace (what a run shows), Busy (the agent's buttons and
--              the gate), Refusal (a refused refresh), Slots (the top bar)
--   Schedule   frontend/src/views/Schedule.tsx: Shape (seven days of 24 hours), Hours (a click), Reload
--   Finance    frontend/src/views/Finance.tsx, and the unpriced models of Overview.tsx: Draft (the
--              draft of the prices), Unpriced (the figures of unpriced tokens), Saving (`save`; Notice)
--   Settings   frontend/src/views/Settings.tsx: Endpoints (ids of added endpoints), Form (the draft)
--   Installer  frontend/src/views/Models.tsx: `Installer`; Polling (which job the page shows)
--   TokenBuckets  frontend/src/views/TokenBuckets.tsx: Total (what the values add up to), Bars (the
--              bars and the empty chart; Parts: what they add up to)
--   Overview   frontend/src/views/Overview.tsx: the card `Attention` (Attention: when all is well)
--   Performance  frontend/src/views/Performance.tsx: Bars (the rows of the durations)
--   Protocol   protocol/protocol.go: Accepted (what a valid message promises), Catalog
--              (`ValidateCatalog` against a description)
--   Coordinator  internal/coordinator: Job (`job`), Attempt (`deliver`, `abandon`, `remove`; Response,
--              Invariant, Checks and Runs: what holds in every order), Forward (`forward`; Reply,
--              Messages, Events and Rounds: what the client gets), Delivery (both together), Select
--              (`selectJob`, `connect`; Choice, Served and Found: what it selects; Capacity and
--              Overbooking: the room on the hosts), Chat (`chat`; Answers), Access (`New`,
--              `authorize`; Distinct: the keys; Identity: who is let in)
--   ModelOffers  frontend/src/views/Models.tsx: `Models`; Server (`models` and `replaceConfig` of
--              internal/dashboard/dashboard.go, which keep the offers, and `Start`), Toggle (a click)
--   Agent      internal/agent/agent.go: `execute`; Terminal (each message by itself), Response (all of
--              them together), Attempt (whom the last one answers), Slots (`New`, `Discover`,
--              `Catalog`, `reserve`; Choice: which slot; Catalog: what is announced), Session
--              (`session`; Tasks, Ledger, Invariant and Runs: what holds in every order), Life
--              (`Run`), Promises (of both)
--   Discovery  internal/backend/backend.go: `discover`; Listed (the models that are taken), Offered
--              (what is announced of them)
--   Config     internal/config/config.go: `Agent.Validate`; Urls (identifiers, slashes), Accepted (the
--              parts of what is accepted), Stable (the whole), Listener (`Coordinator.Validate`)
--   Usage      frontend/src/views/Usage.tsx: the figures and the table (Rows)
--   Runtimes   frontend/src/views/Runtimes.tsx: the figures of each runtime
--   History    internal/history/store.go: `Store.Record`, `Store.Summary` (Figures: the counts and sums;
--              Agreement: the dashboard's figures), Recorder (`recordAttempt` and the live part of `usage` of
--              internal/dashboard/dashboard.go; Tracks: each attempt by itself)
--
-- Numbers: token counts, durations, indices and lengths are natural numbers, which a double holds
-- exactly below 2^53; rates and money are values of any type with the operations of `Number`, so no
-- theorem uses a law that rounding breaks. A time is an integer of milliseconds, and a time stamp that
-- does not parse has none. The loops go over finite lists,
-- so no fuel is used but for the spacing of doubles in `percentile`, where 1024 halvings are more than
-- a double can have. A callback of React runs
-- on the state of the last render, and the model applies it to the current state: the handlers of the
-- page render between two events.
--
-- Concurrency: two goroutines share a job, the one that reads from its host and the one that answers
-- the client. A run of an attempt is a list of actions in any order, each a part of `deliver`,
-- `abandon`, `remove` or `forward` that touches what they share at most once, or what the lock of the
-- coordinator guards while it is held; `started`, `seq` and the place of the job in its host's map are
-- changed by the first goroutine alone. A map of Go is a list with each
-- key once at most. In a session of the agent each step of a task, and each message or tick, is one
-- event of a list in any order. The loop of `forward` goes over the events that its `select`
-- receives, and has no result where they run out; the loop of `chat` makes two passes, as in the
-- code.
--
-- Not modelled: the markup, the formats that `Intl` and `toFixed` make, the lines of the charts; of
-- the Go side the database of the history (a list of events here), the agent's HTTP server but for the
-- handler of offers and the record of attempts, the connections (internal/wire), and the clocks that
-- close a silent connection or wait before the next one. A request of the page that waits is counted,
-- and its answer is any value of its type.
pub mod Agent
pub mod ModelOffers
pub mod Runtimes
pub mod Usage
pub mod Protocol
pub mod Coordinator
pub mod Prelude
pub mod Number
pub mod LocalTime
pub mod Api
pub mod Js
pub mod App
pub mod Finance
pub mod Installer
pub mod Overview
pub mod Performance
pub mod Schedule
pub mod Settings
pub mod Sidebar
pub mod TokenBuckets
pub mod Stats
pub mod Samples
pub mod Config
pub mod Discovery
pub mod History

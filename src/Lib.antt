-- ===== src/Lib.antt =====
-- A model of the browser side of the Vidhi trading platform. The simulation, in
-- `vidhi_context/src/engine/simulation.worker.js`: a contestant's code trades against five bots on
-- an order book, in a web worker, tick by tick; the worker loads a dataset, settles the
-- contestant's fills, keeps the histories that the dashboard draws, and posts telemetry after each
-- batch of ticks and a report at the end. The engine, in
-- `vidhi_context/src/engine/VidhiEngine.js`: it starts a run in the worker or on a server, takes
-- what the worker, the websocket and the poll report, and tells the pages. The API client, in
-- `vidhi_context/src/api/client.js`: the requests to the servers, the poll of a run, and the
-- websocket that connects again. The store, in `vidhi_context/src/store/ContestStore.js`: the
-- contests, the student's results and runs, and the telemetry of runs, which the pages share and
-- the browser's storage keeps. The pages and components, in `vidhi_context/src/pages` and
-- `vidhi_context/src/components`: their handlers and what they compute before they draw.
--
-- Lob: `PersistentLOB`. Types has the book's state (`bids` and `asks` as association lists from a
--   price to a level, the id counter, the last trade, the history of twenty trades and the two
--   best prices); Book the operations of JavaScript's `Map` and the sort; Orders `_rebuildBest`,
--   `addOrder` and `cancelOrder`; Market `marketOrder` with its two loops; Views `bestBid`,
--   `bestAsk`, `spread`, `mid`, `depth` and `snapshot`. The other modules are proofs: Sound says
--   when a side of the book is well formed, Best what its best prices promise, Healthy both.
-- Bots: a module for each of `MarketMaker`, `MomentumBot`, `MeanReversionBot`, `NoiseTrader` and
--   `SniperBot`, with `compute` and where it does something `onFill`; Ring is `OrderRing`, Signal
--   the price signal and the scale of a bot. Quotes, Sound and Ring/Queue are proofs.
-- Sim: the worker. Types has the state of the simulation as the record `Sim`, the calls of a
--   contestant's code and the record `Environment` of what a simulation is given. Contestant is
--   `ContestantRunner.run`; Process the contestant's orders, the position guard and the queue of
--   200; Ledger the settlement of fills, `BOT_ACTIVITY` and the mark to market; Tick
--   `getPriceSignal` and the body of the tick loop; Batch `initSimulation`, `runBatch` and
--   `STOP_SIMULATION`, with `buildFinalReport` in Batch/Report; Walk `PriceSignal`; Custom
--   `CustomBotRunner` and `addCustomBots`, for which the engine posts no bots; Load `loadDataset`
--   and `parseVidhiBinary`; Transpile `_transpile`, with its patterns in Transpile/Scan, the
--   reading of a line in Transpile/Lines and the loop over the lines in Transpile/Blocks; Worker
--   `compile`, `parseBotConfig` and `START_SIMULATION`. Progress, Fair, Invariant, Accounts,
--   Activity, Guard, Custom/Owned, Walk/Bounds, Load/Binary, Transpile/Tree, Transpile/Braces,
--   Transpile/Balance, Transpile/Whole and Worker/Completes are proofs.
-- Engine: `VidhiEngine`. Types has its state as the record `Engine`, with what it told its
--   subscribers, and the messages of the websocket and the worker; Shown `lastState`; Notify
--   `_setStatus`, `_log` and the subscriptions; Telemetry the buffer, its timer and
--   `_processTick`; Messages `_handleWSMessage` and `_handleLocalMessage`; Validate
--   `_validateBackendPython`, with its regular expression on texts; Config the payload of a local
--   run; Submit `_startCloudRun` and `_startBackendRun`; Launch `startSimulation`,
--   `stopSimulation` and `loadHistoricState`; Polling the callbacks of the poll and of the
--   connection; Events all of these as one event after another. Messages/Local, Polling/Ended and
--   the modules below Events are proofs.
-- Client: the API client. Http is what a response becomes, Keys the key in the browser's storage,
--   Requests the health checks, `submitCode`, `fetchLeaderboard` and the downloads; Poll
--   `pollRunUntilDone`, Socket `connectTelemetryWS` as a step relation. Poll/Ends and Socket/Alive
--   are proofs.
-- Store: `ContestStore`. Types has its state, with the listeners, the storage, the telemetry
--   buffer and the timer; Storage `_load`, `_save`, `subscribe` and `reset`, with what JSON keeps
--   of the state; Contests what a creator does (`updateContest`, `publishContest`, `endContest`,
--   `deleteContest`); Student `joinContest`, `leaveContest`, `saveLastCode`, `recordResult` and
--   `addRunHistory`; Board `getActiveContest`, `getActiveRoundId` and `getLeaderboard`; Telemetry
--   the callbacks of the websocket and the timer; Server `fetchContestsFromServer`, `setRole` and
--   `createContest`, with the server's answers for parameters; Demo the contests of
--   `resetAndCreateDemoContests`. Datasets is the database of `vidhi_context/src/utils/idb.js`.
--   Found and the child modules are proofs.
-- Pages: Metrics is `calculateMetrics` of `SimulationDashboard.jsx` and Chart the data of its
--   `LWChart`; Clock is `updateTimer` of `GMTimer` in `ContestCreator.jsx` and Form the rest of
--   that page: `toggleBot`, the rounds, the uploads, `saveContest` and `handleFinalEvaluation`.
--   Arena is `CodeArena.jsx`: its callback of the engine's status, its timer and its request for
--   the execution log, with the log's lines in Arena/Snippet and `getStepStatus` in Arena/Steps.
--   Roles is `RoleGuard` of `App.jsx` and `RoleSelector.jsx`; Board `fetchLB` of
--   `Leaderboard.jsx`, Sidebar that of `SidebarLeaderboard.jsx`; Countdown the countdown of
--   `Layout.jsx`, with its interval and the links that lead out of the layout and back; Results
--   `CalculatingResults.jsx`; Lobby `ContestLobby.jsx` and `formatTime` of `Submissions.jsx`.
--   Metrics/Largest, Clock/Shown, Chart/Drawn, Form/Again, Arena/Alerts, Arena/Delay,
--   Roles/Passcode, Board/Online and Countdown/Ends are proofs.
-- Prelude: the names that all share; Text has JavaScript's methods on texts.
-- Tests: runs on small inputs, and each result on a concrete input.
--
-- The parts interact as the code has it. The engine posts the payload of Engine/Config to the
-- worker, whose messages (Sim/Batch, Engine/Types) it handles; it writes the results of runs to
-- the store; its poll and its websocket are those of the client. The pages hear of the engine's
-- status as events, and call the store's and the engine's operations.
--
-- The worker has one book that the bots, the contestant and the loop share; here each operation
-- takes it and gives it back, in the order in which the code calls them. A price and an amount of
-- cash is a whole number of units of 0.0001 dollars, so that TICK_SIZE is 100 of them, and a
-- percentage one of units of 0.0000001. A scale is a fraction, and the average of the momentum bot
-- is an exact fraction: the rounding of doubles is not modelled. A best price is `none` where the
-- code has an infinity. Draws of the noise trader are 32-bit numbers.
--
-- The store and the engine mutate one state each that their pages read; here each operation takes
-- the state and gives it back. A contest is found by its id, the first of that id. A text that is
-- absent is empty and a number that is absent is 0, as the code tests both together; the fields of
-- `lastState` and of messages are options. What fits into the storage, and the time, are in the
-- record `Browser`. A start of a run on a server is one event here: what may happen between its
-- awaits is not interleaved with it.
--
-- Fuel: `run_batches` counts batches of 500 ticks and `poll_from` rounds of the poll, and the
-- results say how many are enough. All other loops are structural: the inner and the outer loop of
-- `marketOrder` go down a level's orders and the sorted prices, `run_ticks` counts the 500 rounds
-- of a batch, `read_prices` the ticks that a file announces, and the pieces of a text are counted
-- by its length.
--
-- Parameters: in `Environment` and `Outside`, the function that JavaScript makes of a text, the
-- clock, the price that the random walk gives a tick, in `Moves` what it makes of its draws, and
-- how JavaScript reads a number; in `Sources`, the browser's database and the server's files, and
-- of the database itself what its opening comes to and the error of each request; in `Texts`, how
-- JavaScript prints numbers; in `Backend` and `PollEnv`, the servers' answers, the time and the id
-- that a name becomes.
--
-- Not modelled: blanks outside ASCII and a carriage return inside a line of the contestant's code,
-- and of the client the requests that only pass their arguments on. Of the pages the mark-up, the
-- drawing of curves and the fields that a form only copies are left out. The servers in Go, C++
-- and Python, the generator of documents, the older copy of the client in `test_extract` and the
-- deployment are outside the development.
pub mod Prelude
pub mod Lob
pub mod Bots
pub mod Sim
pub mod Store
pub mod Client
pub mod Engine
pub mod Pages
mod Tests

-- ===== src/Lib.antt =====
-- A model of the control plane and the gateway agent of the PQC migration gateway.
--
-- The program. gateway/model.py validates the document that describes the services of a gateway and
-- brings it into one canonical form. manager/config_store.py keeps everything in one SQLite database:
-- releases and their status, resources, agents, metrics, scan jobs and plans.
-- manager/state_machine.py moves each service through the states of its migration, in the same
-- database. gateway/agent.py activates the desired release on a gateway, checks its health, and goes
-- back to the previous configuration if that fails. manager/control_plane.py stages the releases:
-- it validates, renders with gateway/renderer.py, signs, and points desired.json at the new version.
--
-- The files. `Prelude` has the shared tests, lists, integers and texts; `Result` the exceptions;
-- `Exec` code that keeps what it did when it raises; `Json` documents.
--   `Config.Fields`, `Config.Service`, `Config.Legacy`, `Config.Normalize`: gateway/model.py. A field
--     validator is a function into `Result`; the loop over the services carries the ids and the
--     listeners that it has seen; `document` is the `dict` that `normalize_config` returns.
--   `Store.Tables`: the rows and the database of manager/config_store.py; `Store.Rows` the SQL
--     statements on them; `Store.Releases`, `Store.Resources`, `Store.Documents`, `Store.Metrics`,
--     `Store.Scans`, `Store.Inventory`, `Store.Lists` and `Store.Summary` its methods, one function
--     each. A method that is one transaction is a function
--     `Store → Result Store`: an exception leaves the database as it was.
--   `StateMachine`: manager/state_machine.py.
--   `World`, `Agent`: the files and commands of a gateway, and gateway/agent.py. An `Exec World`
--     keeps its effects when it raises, as the code does between its transactions. The outcome of a
--     command is a function of all commands before it, and so is the answer of the status page.
--   `Gateway`: gateway/renderer.py and gateway/adapters. A rendered text is the `concat` of the pieces
--     of the f-string. `Policy`: manager/policy_engine.py. `Control`: manager/control_plane.py, whose
--     `stage_document` runs in `Exec World` like the agent. `RiskEngine`: manager/risk_engine.py.
--   `Report`: manager/runtime_ingest.py, which makes a bounded report of what a runtime agent sends and
--     an asset inventory of that. `Discovery`: `ingest_runtime_report` of manager/config_store.py, in
--     `Exec Store`, with the readers of its tables.
--   `Migration`: manager/scan_orchestrator.py. `Request` has `validate_request`, with the paths of
--     the file system as functions of the orchestrator, `Command` the arguments of the scanner,
--     `Job` `submit` and `_run`, in `Exec Store`, where making the directory and running the scanner
--     are functions of their arguments. `Assess` has `assess` and `_advance`, `Service` has
--     `_compatibility_service`, `Promote` the checks, `Plans` the stored plans and `Run` the actions
--     of `migrate`, in `Exec World`, since the transitions and the staged releases of a request that
--     raises stay.
--
-- Choices. Tables list the newest row first where the code reads them so. Times are whole seconds
-- and are passed in; REAL columns are in millionths. JSON columns hold the value. Texts have no lone
-- surrogates; a report with one is refused where its size is measured. The numbers of a process are
-- unbounded, as in Python, and the insert raises on one that SQLite's 64 bits cannot hold; the count
-- of an observation is at most 10^9, and its sum over the batches has no bound. Messages of
-- exceptions are reduced to what they are about. The digests of hashlib and hmac, and `str` of a
-- JSON value that is not a text, are functions of the host, and so are the conversions of Python and
-- the fresh ids that a report or a migration takes. Recursion is structural; only the decimal text
-- of a number has fuel, five digits for a port, which has no more, and otherwise the number itself
-- and one; and the nesting of JSON metadata has the six levels of the code.
--
-- Not modelled: the HTTP interface and the command lines, the scanners and the runtime collectors,
-- adapters of other packages, the demonstration backends and the experiments.
pub mod Prelude
pub mod Result
pub mod Exec
pub mod Json
pub mod Config
pub mod Store
pub mod StateMachine
pub mod World
pub mod Gateway
pub mod Agent
pub mod Policy
pub mod Control
pub mod Report
pub mod Discovery
pub mod Migration
pub mod RiskEngine

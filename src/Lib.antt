-- ===== src/Lib.antt =====
-- A verification of the operations lab: the kill switch, the run specification, the paper and the
-- backtest lifecycle with the Nautilus smoke run, the reconciliation, the drills, the preparation of
-- data, connectivity and evidence, all of src/tradingchassis_ops_lab. Paths are from the root
-- of the repository, and a bare folder such as runs/ stands below src/tradingchassis_ops_lab.
--
-- The program. `tc` is a command line over files. A run specification in YAML (runs/spec.py) names
-- a run. The lifecycles (runs/paper.py, runs/backtest.py) make a directory for it under
-- artifacts/runs with a copy of the specification, metadata, a journal of events, metrics and a
-- report. The kill switch (safety/kill_switch.py) keeps a state file and an event log per run, and
-- the paper lifecycle reads it before it starts. Reconciliation (reconciliation/checks.py) compares
-- two payload files and puts its result in the directory of the run. Drills, evidence, metrics and
-- connectivity reports read and extend the same directories.
--
-- The files of this library.
--   Base            shared names; texts and `strip`; JSON values and dictionaries (`get`, `put`);
--                   Sorting and Counting are `sorted` and counting, Search and Segments the
--                   search in texts.
--   World           the operating system: World/Effects has the record of files, permissions,
--                   clock, random identifiers and environment, and one action per call of it;
--                   World/Content what a file holds; World/Paths how a text is joined to a
--                   path; World/Frame, Folders, Atomic, Raises, Post and Returns the rules for what an action leaves alone, for raising
--                   without effect or for sure, and for what it establishes if it returns, or
--                   for sure.
--   KillSwitch      safety/kill_switch.py. Payloads has its classes and paths, Parse its reader
--                   `parse_state_payload`, Operations its functions under their own names; Frame,
--                   Status, Isolation, Outcome and Snapshot are proofs.
--   Runs            Spec and Validate are runs/spec.py (`validate_run_spec` is
--                   `RunSpec.model_validate`); Artifacts is `load_run_spec` with runs/artifacts.py,
--                   runs/hashing.py, runs/metadata.py and runs/journal.py; Lifecycle and Paper are
--                   runs/paper.py, whose function `run_paper_lifecycle` stands there in the parts
--                   `start_paper`, `block_paper`, `complete_paper` and `fail_paper`; Paper/Report
--                   is the paper report of reports/render.py. Backtest is runs/backtest.py
--                   in the same way (`start_backtest`, `complete_backtest`, `fail_backtest`), with
--                   its records in Backtest/Payloads and the other two reports in
--                   Backtest/Report. Valid, Sound and RoundTrip are proofs
--                   on the specification; Opened, Steps, Ready, PaperRuns, PaperLifecycle,
--                   PaperEnds, PaperGuards, BacktestRuns, BacktestLifecycle and BacktestEnds
--                   are proofs on the lifecycles.
--   Engine          engines/nautilus: Strategy is the strategy of the smoke scenario as a step on
--                   its counters, Smoke the run with its checks; Counting, Reads and Facts are
--                   proofs.
--   Data            data/: Prepare and Fingerprint; Prepared is a proof.
--   Reconciliation  reconciliation/checks.py: Standard has its decimals and dates, Validate
--                   `_validate_payload`, Checks the comparison of positions, Orders and Freshness
--                   the other two, Rollup the summary and the status, Operation the whole
--                   `run_reconciliation_check`; Verdict, Agreement, SameOrder,
--                   OrderIds, OrdersAgree and Effects are proofs.
--   Drills          drills/executor.py: Rehearsal is `execute_restart_recovery_drill` with its helpers,
--                   Fixtures the two drills that reconcile fixtures; Report is a proof.
--   Connectivity    Readiness is connectivity/readiness.py; Url and Probe are connectivity/probe.py;
--                   Sections and Artifacts what the two write in the same words; Replaced,
--                   Present, Loopback and Files are proofs.
--   Evidence        Load, Compared, Payloads and Compare are evidence/compare.py, Cells and
--                   Render are evidence/render.py, Write is evidence/write.py; Frame, Status,
--                   Missing and Complete are proofs.
-- Each component has its examples in a module Tests.
--
-- How state, errors and files are modelled. A function of the program is a function from the world
-- to a result and a world; an exception is the result `raised` with its class, and what was written
-- before it stays. A file holds a JSON document, a journal of lines, another text or bytes that are
-- no UTF-8, rather than characters: `json.dumps` and `json.loads` are not modelled below that. A
-- write that fails may fail before the file is open, which leaves it, or after, which leaves some
-- content in it. A path is the list of its names, innermost first. World/Paths joins an id with
-- slashes and dots to the paths of the kill switch; elsewhere an identifier of a run is taken to be
-- one name, without a slash. Links are not modelled. A float of JSON is its bit pattern. Keys of an
-- object are distinct. Other processes do not interfere.
--
-- What stands as a parameter. `yaml.safe_load`, how pydantic reads a `bool`, and the digest of the
-- canonical JSON text (Runs/Artifacts, `Libraries`); `Decimal`, `datetime.fromisoformat`, `isoformat`
-- and `repr` (Reconciliation/Standard, `Standard`); the engine and the data frames of the backtest
-- (Engine/Smoke, `Nautilus`); `urllib` (Connectivity/Url, `Urllib`); the disk below a dataset
-- (Data/Fingerprint, `Disk`); `==` and `str` on JSON values (Evidence/Load, `Python`); the folders of
-- the fixtures and of temporary files (Drills/Fixtures, `Bench`); `path.resolve()` in Evidence/Write.
-- `str(path.resolve())` and `str(exc)` are fields of the world.
--
-- Bounds. No function here runs on fuel but `decimal`, which writes a number in decimal: as many
-- steps as the number counts to are more than its digits. Heartbeats are a recursion on their
-- number. Ages in a freshness check are exact in the code below 2^33 seconds, where its double is.
--
-- What is not modelled. observability/, the metrics and their server; cli.py, the parsing of arguments
-- and the printing; engines/nautilus/paper.py and safety/guards.py, which are placeholders.
pub mod Base
pub mod World
pub mod KillSwitch
pub mod Runs
pub mod Reconciliation
pub mod Drills
pub mod Engine
pub mod Data
pub mod Connectivity
pub mod Evidence

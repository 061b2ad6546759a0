-- ===== src/Lib.antt =====
-- materials_screening_agen: a model of the control plane of the materials screening agent, with proofs.
--
-- The program runs materials-discovery workflows. Modelled here, as the source has them, are the parts that
-- decide what may happen when and which candidates go on.
--
-- * The orchestrator keeps projects, runs, stages, approvals, external jobs and events in a SQLite
--   database (src/material_agent/orchestrator/storage.py). Before it changes a status column it asks one of
--   four transition tables (src/material_agent/orchestrator/state_machine.py), whose states are the enums of
--   src/material_agent/orchestrator/models.py.
-- * The Materials Gateway (src/material_agent/gateway) runs one companion computation per submission.
--   MaterialsGatewayService (service.py) validates what the companion answers against the request's
--   limits and stores it in a repository with optimistic revisions (memory.py); an action of a user needs a
--   one-time grant that an operator issued (authorization.py). The records are those of models.py. A second
--   repository keeps them in SQLite (persistence.py), and the companion that is shipped (companion.py) lets its
--   runner run only on an approved manifest.
-- * The stages choose what they work on: retrieval ranks and publishes candidates
--   (src/material_agent/retrieval/ranking.py), the screening selects those that it executes
--   (src/material_agent/ml_screening/selection.py), the DFT stage orders the tasks of a workflow template
--   (src/material_agent/dft/workflows.py) and decides which calculations may start (dft/preflight.py) and which
--   claims may be judged (dft/claim_gate.py), and the many-body stage routes a model to a solver
--   (src/material_agent/many_body/routing.py).
--
-- Files:
--   Prelude and its children: shared helpers. Tests: Boolean tests; Raising: code that may raise; Table: tables
--     of rows with the selections and updates that the stores use; Predicates: a predicate of all rows;
--     Sorting: Python's stable sort; Keys: lists of keys, and rows with different keys;
--     Texts: the texts that `str.strip` leaves empty.
--   Orchestrator/Status, Orchestrator/Transitions: the enums with their texts, the four tables and the
--     validators. Below Transitions: walks of a table, and what they say of runs, stages and cancelling.
--   Orchestrator/Store: one method of OrchestratorRepository that writes is one function from a store to a
--     store or an error (Rows: the tables; Runs, Stages, Approvals, Jobs: the methods); `handle` is a call
--     of any of them and `serve` a sequence of calls, where a call that raises leaves the store alone.
--   Orchestrator/History: what every sequence of calls keeps, table by table; Keeping, Inserting and
--     Records: the tables that are only inserted into.
--   Gateway/Model: the contracts. Gateway/Grants: SqliteOneTimeActionGrantStore and, in Issuer, the
--     requirement-freeze issuer. Gateway/Credit: what the grants allow.
--   Gateway/Memory: InMemoryGatewayRepository. Repository, Results, Revisions: what it keeps.
--   Gateway/Service: MaterialsGatewayService, with the grant store as its authorizer. Below it: Budgets and
--     Calls (its calls as calls of the repository), Bounds, Reading, Admitting (up to the companion's call),
--     Sparing (calls that leave a run alone), Acting, Committing and Submitting.
--   Gateway/Database: SqliteGatewayRepository. Rows, Same, Creating, Replacing and Refining compare it with the
--     in-memory repository, call by call.
--   Gateway/Companion: OfflineInspirationCompanionAdapter. Outcomes and Settling: what it answers and what the
--     service makes of it; Freezing: what its runs wait for; Approvals: when it runs its runner.
--   Dft/Workflow: workflow templates. Rounds, Order, Cycles: the loop that orders the tasks; Registry. Dft/ClaimGate,
--     with Readiness: evaluate_claim_readiness. Dft/Preflight, with Clearing: evaluate_real_preflight.
--   ManyBody/Routing, with Recommending: route_model.
--   Retrieval/Ranking, with Publishing: rank_and_publish. Screening/Selection, with Limits: select_candidates.
--   Tests: runs on concrete inputs, and each theorem at one of them.
--
-- How the code is represented. A SQL table is the list of its rows in the order of insertion, a dictionary
-- the list of its values; a uniqueness or foreign-key constraint that an insertion can violate is a check
-- before it. A transaction that raises is rolled back, so an operation returns its new state or an error.
-- JSON and hashes are texts: SHA-256 and the canonical JSON of each hashed type are the fields of the
-- parameter Hashing, of which nothing is assumed. The companion (two functions from its arguments to a
-- transition or an exception) and the reader of report artifacts are parameters too. A call of the service
-- is one step; overlapping writers are sequences of calls of the repository. Counters and revisions are
-- unbounded, as Python's integers are, but for the INTEGER columns of the databases, which hold 64 bits: a
-- larger number in a write raises, and reads by one are left out. The functions recur on lists, but for the loop that orders the tasks of
-- a workflow: `rounds` has as fuel the number of tasks, which is enough since each round that does not stop
-- takes a task at least. Floats are a parameter with the operations that the ranking uses. Of a large contract a
-- module has the fields that its code reads; what else the companion's manifest covers is one text.
--
-- Not modelled: timestamps, schema set-up and migration, file permissions and connections; the validators
-- that bound the lengths of texts when a contract is parsed; tests of the Python type of an argument; the
-- Gateway's MCP server; the LangGraph workflow; and, beside what is named above, the retrieval, screening, DFT,
-- many-body and inspiration packages, of which much calls databases, numerical models and external programs.
mod Prelude
pub mod Orchestrator
pub mod Gateway
pub mod Dft
pub mod ManyBody
pub mod Retrieval
pub mod Screening
pub mod Tests

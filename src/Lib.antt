-- ===== src/Lib.antt =====
-- A model of the fleet manager and of parts of the hub.
--
-- The fleet manager (fleet-manager/fleet_manager) keeps the desired state of pools, hosts,
-- assignments, drains and rollouts. A change is planned against a revision (plan.py), and apply.py
-- runs a plan once per idempotency key, with a check of the principal's scopes (auth.py) and an
-- entry in the audit log (audit.py) for every change and refusal. An instance takes one job, and
-- its capacity is replaced once its cleanup is proved or it is quarantined (lifecycle.py). Host
-- agents enrol keys with one-time tokens and send signed reports (channel.py); what a host is to
-- become is written as a document (documents.py) and signed for it (state.py); a reconciliation
-- bounds the changes that it submits (reconcile.py), and a ledger keeps the operations that agents
-- are told and their receipts (operations.py). The hub (hub/) admits effect-bearing submissions
-- through a replay guard (hub/coherence/replay_guard.py), and keeps the requests of runners for
-- missing tools, which an operator decides, a builder fulfils and the lane's heartbeats confirm
-- (hub/toolchain_transitions.py, toolchain_creds.py, toolchain_evidence.py, toolchain_store.py).
--
-- Base: tests on numbers and texts, lists, dicts, a result type for code that raises, the regular
-- expressions as tests on code points.
-- Fleet.Values (Rules, Pools, Hosts, Work): the frozen dataclasses of model.py; a `check_…` function
-- is the `__post_init__` of its class.
-- Fleet.Desired: DesiredState and its transitions `with_…`; Spec is their specification as a
-- relation, Steps the refinement, Soundness what it keeps, Occupancy how the work of a host changes.
-- Fleet.Plan, Fleet.Audit, Fleet.Auth, Fleet.Apply: the modules of those names. An exception is an
-- error value; a frozen dataclass that is replaced is a record that is returned.
-- Fleet.Lifecycle: lifecycle.py and the warm pool of adapters.py. Jobs is the machine of one
-- instance's job, Gate the admission gate and `admit_replacement`; Advance is about the machine,
-- Accounting and Stock about the gate and the pool.
-- Fleet.Wire: JSON values, and the record `Platform` of what the signed documents use of Python's
-- library.
-- Fleet.Channel: channel.py. Credentials and Envelopes are its values, Manager the operations of
-- `AgentChannel`, Runs sequences of calls; Moves says what a call may write, Ledger and Revocation
-- are about the credentials, Once about tokens and sequence numbers, Reports about `accept`,
-- Documents about the wire form.
-- Fleet.Reconcile: reconcile.py. Candidates has the check and order of a batch, Bound the loop of
-- `bound_candidates`; Caps and Progress are about the batch. Observations is observation.py with the
-- documents of reports, Reports is about them; Placement is `_placement_host`, Offers and
-- Best are about it.
-- Fleet.Documents: documents.py. Fields has the shape of a document and the reading of its fields,
-- Write and Read the two directions; Parts, Labels and RoundTrip read back what was written.
-- Fleet.SignedState: state.py. States has the signed value and its wire form, Issue `StateIssuer` and
-- `accept_state`; Accept is about the two together.
-- Fleet.Operations: operations.py. Typed has the operations and what an agent is permitted, Receipts
-- its receipts, Ledger the ledger of both; Moves, Backed and First are about runs of its calls.
-- Coherence.ReplayGuard: InMemory and Sqlite are the two backends, a dict being an association list
-- and the table a list of rows; Runs sends requests to either.
-- Hub.Gaps: toolchain_requests.py as far as the gaps that spokes report.
-- Hub.Requests: rows and table; Decide, Build and Heartbeat are the operations, each a chain of
-- checks whose early return carries the row; Change says what an operation may do to a row,
-- Decisions and Builds what the checks establish, Reach what sequences of acts reach, Nonces what
-- holds across the document.
-- Tests: concrete runs.
--
-- All functions are total by structural recursion, so there is no fuel. Numbers are unbounded, as
-- Python's are, and natural: a negative revocation version and the 64-bit range of SQLite's integers
-- are left out. Instants are whole numbers of one unit. The parsing and printing of instants, the
-- digests and hashes, the parser and printer of JSON, the signature provider, the test for secrets in
-- texts and the addition of days are parameters; a theorem that relies on more of them than their
-- type says so as a hypothesis.
-- Not modelled: values of another type than a field's, the HTTP layer and the registry's file, the
-- evaluators of hub/coherence, the scripts, and in the fleet manager container specifications
-- and the building of a reconciliation's candidates.
pub mod Base
pub mod Coherence
pub mod Fleet
pub mod Hub
pub mod Tests

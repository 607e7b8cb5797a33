-- ===== src/Lib.antt =====
-- VisionQC: visual quality inspection. Edge gateways watch folders of captures, queue each accepted
-- image in a local SQLite table and upload it; the backend files an inspection, lets a model score it,
-- routes the score by a threshold policy, has people review what is not released automatically, opens
-- quality incidents, and calls external systems (MES, QMS) for them. Every change of an inspection's
-- state passes one transition table and is logged.
--
-- The parts, and where they are modelled:
--   Edge            edge-gateway/src/edge_gateway/queue.py. `Edge.Rows` is the table's row and
--                   `QueueItem`, `Edge.Inserts` what is inserted, `Edge.Queue` each method of
--                   `QueueStore` as a function from the table to the table and its answer. One method
--                   is one SQLite transaction; the readings of the clock are arguments.
--                   edge-gateway/src/edge_gateway/runtime.py: `Edge.Watcher` is DirectoryWatcher,
--                   `Edge.Parsing` `_parse_file`, `Edge.Ingest` scan_once and the runtime's state,
--                   `Edge.Runtime` upload_once, heartbeat_once and run_cycle. `Edge.Uploads` is
--                   edge-gateway/src/edge_gateway/uploader.py: the form, and what a response comes to.
--   Backend.Domain  backend/app/domain.py: states, the transition table, its check. `Trails` are the
--                   runs of the table.
--   Backend.Policy  backend/app/policy.py: validation, resolution and evaluation of a policy.
--   Backend.Packs   backend/app/deployment.py: the Deployment Pack manifest, its validators and catalog;
--                   `Fields` is `context_from_fields`, which reads a posted form under a manifest.
--   Handoff         the gateway's form against the backend's reading of it.
--   Backend.Connectors  backend/app/connectors.py: what a call comes to, the connector in memory, and
--                   the executor that retries; the state of the external system is passed on.
--   Backend.Workflow  backend/app/services.py over the tables of backend/app/models.py (`Tables`).
--                   `Session` holds `_transition_inspection` and `record_audit`.
--                   `Intake` is create_inspection, `Inference` process_inference, `Actions` the external
--                   actions, `Incidents` the incidents, `Reviews` the review tasks, `Outbox`
--                   process_one_outbox and the round of backend/app/worker.py. `Environment` is what the
--                   workflow is given: settings, model, connectors.
--   Backend.Release  backend/app/services.py and backend/app/qualification.py over the tables of models
--                   and packs (`Tables`): `Evidence` is verify_evidence_package, `Qualifications` the
--                   registration of a qualification, `Decisions` evaluate, approve, activate, retire and
--                   roll back, `Deployments` create_deployment, activate_deployment and the revocation of
--                   a dataset, `Datasets` register_dataset. `Lifecycle` is the abstract machine of the
--                   release process.
--   Backend.Calls   the monad of a service call, for both: tables in, an answer and tables out, or an
--                   error that rolls back. `Ensuring` are postconditions of calls.
-- How they interact: the workflow evaluates the policy, checks transitions by the domain and reads the
-- outcome of the executor; the gateway's scan fills the edge queue, its uploader posts the items as
-- forms, and the backend reads these under the same manifest; the activation of a pack asks for active
-- qualifications, the activation of a qualification for the active pack.
--
-- How proofs about the workflow are built: `Keeping` shows that each action of `Session` keeps any
-- predicate that is closed under the three writes to inspections and under all writes elsewhere,
-- `Operations` that so does each operation, and `Steps` that so does every run. `Tracked`, `History` and
-- `Filing` apply this to their predicates; `Leading` is for an action that brings a predicate about, and
-- `Safely`, with `Routed`, for one that also answers. `Locking` is about claims and decisions of reviews,
-- `Stuck` about an event whose handler raises. For the release process, `Rows` and `Switching` are about
-- a table with at most one active row in a group, `Lifecycle.Updates` and `Lifecycle.Keeps` about the
-- invariant of the abstract machine, `Refines` shows that each operation is a step of it, and `Runs`
-- takes both to every run; `Runs.Vouching` and `Runs.Stalls` are about activation in production,
-- `Datasets.Runs` and `Datasets.Revoked` about the table of datasets. For the
-- gateway, `Edge.Runtime.Refines` shows that every cycle is a run of the queue's transactions,
-- `Edge.Runtime.Drains` counts with the lemmas of `Edge.Queue.Counts`.
--
-- Bounds and fuel: no fuel is used. The executor recurses on the attempts that are left, the number that
-- its loop has. Numbers are unbounded, as Python's are; `error[:1000]` is cut.
--
-- What is read off the source with a change of representation:
--   times are counts of microseconds: the code compares ISO texts in UTC, whose order is the order of
--   the times; ids are drawn from one counter, in place of random ones, but for a dataset's, which is
--   derived from its content; a score is the bit pattern of a
--   double that is not negative, or `nan`, or `negative`, and is only compared; JSON payloads, audit
--   payloads, image rows and wall-clock columns are not kept; messages of errors leave out what is
--   formatted into them; a context in the edge queue stays JSON text.
--
-- Given by parameters: the answer of the model, of the storage and of the connectors (`Env`), the checks
-- of image, tenant and deployment pack at intake (`Site`, `Submission`); the evidence packages on disk,
-- SHA-256 and the order in which a flush issues UPDATEs (`Desk`); the inspection and storage of a dataset
-- (`Depot`); the health checks and the environment (`Plant`); in the gateway the file system, the image checks, regular expressions and SHA-256 (`Host`,
-- `File`), the reply to a post (`Link`) and the readings of the clock (`Turn`, `Cycle`).
--
-- Not modelled: two transactions that overlap (each is taken as a whole), what a call wrote in its session
-- before it raised (it is rolled back), the audit of a refused image in a session of its own; reasons,
-- metrics and the bindings of connectors in a manifest; the reading of archives in
-- backend/app/dataset_sources.py and the staging of an upload; heartbeats on the backend's side, read
-- models, start-up and the HTTP layer of the backend; the image checks of edge-gateway/src/edge_gateway/quality.py, settings, the
-- archiving of files and the simulator of the gateway, which are I/O; the ml package, the frontend,
-- scripts and migrations.
pub mod Prelude
pub mod Edge
pub mod Handoff
pub mod Backend

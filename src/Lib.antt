-- ===== src/Lib.antt =====
-- AgentDebugX: the parts of src/agentdebug/ that decide something without a model.
--
-- A run of agents is recorded as a trajectory of events. The heuristic analyzer looks for failures in
-- it with packs of rules and names a root cause; the rerun workflow plans, from such a report, where
-- a corrected run branches off, lets an executor run it if it is asked to, and checks what comes
-- back. The capture service is told by a coding host that a session has moved on: it reads the
-- transcript, has the filter and the scrubber prepare the trajectory, and stores it with a receipt in
-- the repository. The checks of a native transcript say whether the messages of a run and its events
-- tell the same story. The files:
--
--   Schema      src/agentdebug/schema/models.py and taxonomy.py: events, trajectories, findings,
--               reports, the 23 seed failure modes, and the public dictionary of a report.
--   Detect      src/agentdebug/diagnose/detect/: Matching, Findings and Anomalies are the rules of
--               rules/packs/core and rules/packs/agenterrorbench, Registry is rules/registry.py,
--               Selection is selection.py, Analyzer is HeuristicAnalyzer of analyzers.py.
--   Rerun       src/agentdebug/rerun/: Diagnosis, Request and Workflow are workflow.py with
--               request.py and executors/base.py, Branch is branch.py and evaluators.py, Live is
--               live_validation.py.
--   Scrub       src/agentdebug/hub/scrub.py.
--   Capture     src/agentdebug/capture/: Exclusion, Bounding and Filtering are filtering.py; Tables
--               and Repository are repository.py with the records of contracts.py, Artifacts the
--               files that a commit writes, from the table that it leaves; Contracts has the other
--               records, Config is config.py, Snapshot snapshot.py and Identity identity.py;
--               Admission, Outcome and Service are CaptureService.handle of service.py: what comes
--               before the receipt, the tests on what was found, and what follows the receipt, in
--               the style of Action.
--   Ingest      NativeProtocol is src/agentdebug/ingest/native_protocol.py.
--   Base        shared names: lists, dictionaries, sets and sorting over the native numbers.
--   Python      texts, values of type Any and exceptions of the language.
--   Samples     one small run, to which the theorems are applied.
--
-- `handle` passes the store on explicitly: what is written before an exception stays, but for what a
-- transaction rolls back. The properties of the service are stated of `handle` itself, for any
-- adapter, file system and clock; one delivery runs after the other, and deliveries that overlap are
-- not modelled.
--
-- Functions keep the names of the source; a method is a function of its object, and a loop is a
-- function of its own, named for what it does. An exception is an error of `Result`. Objects that
-- the source changes in place are values here: each function returns the new one, and none of the
-- properties depends on sharing. A value of type Any is JSON-shaped data, dictionaries with text keys
-- in the order of insertion. A time is a whole number of microseconds, a confidence a whole number of
-- thousandths, and a step index is not negative. The random ids and the clock are arguments.
--
-- Everything is structural recursion but the climb to a kept ancestor, which is on fuel: two more
-- than there are ids, and every round but the last two sees a new id, so that the fuel is enough.
--
-- Arguments stand for code that is not in the repository or not modelled: what an executor returns
-- (`RerunExecutor`), pydantic's parser of trajectories (`parse_live_result`) and its dump of a
-- report (`report_to_dict`), the length of an event's JSON text (`payload_size`), the regular
-- expressions of the scrubber (`Redaction`), pydantic's validation of a configuration (`validate`),
-- the adapter of a host (`HostCaptureAdapter`), and what the service takes from the system: the
-- configuration as it loads, paths and files, SHA-256, JSON (`Surroundings`), and the milliseconds
-- that pass (`Clock`), which are whole here. Of pydantic's validation the theorems on
-- configurations ask that a dictionary with the values of a configuration is validated to it, if
-- its paths are resolved (`IsValidation`). The opening of the database and the transaction of
-- `reconcile_prior_receipts`, which follows the commit, may fail (`Surroundings.reconciles`);
-- beyond that the database answers, only the integrity errors of its tables are raised, and the
-- copies of a session in files can be written. Floats in values of type Any are compared by their
-- texts. Not modelled are the components driven by language models, the ingest adapters,
-- transports, storage but the repository of captures, the adapters of the capture hosts, the
-- command line and the views.
pub mod Base
pub mod Capture
pub mod Detect
pub mod Ingest
pub mod Python
pub mod Rerun
pub mod Samples
pub mod Schema
pub mod Scrub

-- ===== src/Lib.antt =====
-- Alert2IR: the core of an alert-to-incident-response service.
--
-- A canonical alert arrives with an idempotency key. The processor accepts it durably, plans it by a
-- policy on its severity, claims the attempt of the plan, submits one operation to the one backend
-- with the required capabilities, polls it, and stores the result. A bounded reconciliation pass
-- resumes what a stop or an error left unfinished.
--
-- Parts and files:
--   src/alert2ir/core/models.py, workflow.py      Core/Models, Core/Workflow: the values and the
--       baseline policy. A `__post_init__` is a function `..._post_init` into `Result`.
--   src/alert2ir/backends/base.py, router.py      Backends/Base, Backends/Router: the protocol as a
--       record of functions, and the selection of a backend.
--   src/alert2ir/backends/mock.py                 Backends/Mock: the deterministic backend.
--   src/alert2ir/application/orchestrator.py      Application/Orchestrator: the plan of an alert.
--   src/alert2ir/application/persistence.py       Application/States, Record, Attempt: the states with
--       their transition table, and the checks of a record and of an attempt.
--   src/alert2ir/application/fingerprinting.py    Application/Fingerprint: the fingerprint document.
--   src/alert2ir/persistence/memory.py            Repository/Store (the dicts), Acceptance, Plans,
--       Progress, Failure and Reconcilable (the methods, under the source's names).
--   src/alert2ir/application/processing.py        Processing/World (what the processor reads and
--       writes), Acceptance (`_process`, `_advance_accepted`), Submission (`_submit`), Polling and
--       Collected (`_poll_submitted`), Reconciliation (`reconcile_once`).
--   src/alert2ir/api/schemas.py, app.py           Api/Schemas (the alert of a request), Responses (what
--       is shown of a record), App (the routes of alerts and processings).
--       Api/Relayed: what the gateway's client reads in the answers.
--   src/alert2ir/adapters/splunk/auth.py          Splunk/Auth: the HMAC authentication.
--   src/alert2ir/adapters/splunk/client.py        Splunk/Client (what is read of a response) and Submit
--       (its classification, `submit_alert`).
--   src/alert2ir/adapters/splunk/app.py           Splunk/App: the route `submit_finding`.
--   src/alert2ir/adapters/splunk/models.py        Splunk/Models: the validation of a finding.
--   src/alert2ir/adapters/splunk/mapping.py, idempotency.py   Splunk/Mapping: the canonical alert of a
--       finding, and its idempotency key.
--   integrations/splunk/alert2ir_delivery/bin/alert2ir_delivery.py   Delivery/Finding
--       (configuration and values), Build (the finding), Signature, Classification, Deliver (the loop,
--       with its posts and sleeps as events), Execute (`execute_invocation`, `main`).
-- Python holds what the source uses of the language: exceptions, datetimes, dicts, JSON values with
-- their objects as lists of members, methods that change a state and may raise.
--
-- How the parts interact: a method of the repository is one step on its state, since a lock guards
-- it; Repository/Call makes the writing methods data, and a history is a list of calls by any callers.
-- Repository/Change says what one call may do, Repository/Effects that each call does no more, and
-- Repository/Invariant and Preservation that this keeps the dicts consistent. The processor calls the
-- repository, the clocks, the factories of IDs and the backends; Processing/Invariant and Keeps carry
-- the repository's invariant through each method, with the list of the keys given to backends.
--
-- On the side of Splunk, the alert action on a search head signs a finding and posts it to the
-- gateway, up to three times; the gateway checks the signature and submits the finding once to the API.
-- Delivery/Build/Validated, Delivery/Deliver/Authentic and Delivery/Agreement say how the two fit
-- together, and Api/App/Replay how the API, the processor and the repository answer a repeated request.
--
-- An exception leaves the state as it is when it is raised: where a method writes an attempt before
-- it builds the record, the attempt stays written.
--
-- Python/Library holds the operations of the libraries (HMAC, UUIDs, JSON), which answer in any way,
-- and what the results rely on: a hexadecimal digest, a UUID that its text reads
-- back as, and that visible ASCII is printable.
--
-- Parameters: the policy, the request factory, the backends, the clocks, the factories of IDs and the
-- digest of a fingerprint document answer in any way. A call that may answer differently each time has
-- the ordinal of the call as an argument. A UUID is a number, and its text orders like the number.
-- Times are natural numbers: of the wall clock in microseconds, of the monotonic clock in nanoseconds.
-- A difference of times stops at 0, where the code only asks whether it is positive. The loops
-- run over lists, over the three attempts of a delivery, or over the digits of a number.
--
-- Not modelled: telemetry and logging context; the bytes and the SHA-256 of the fingerprint and of a
-- finding's identity; the PostgreSQL repository; the Velociraptor backend; the parsing of event times;
-- the results file and the log of the alert action; the health routes of the API; start-up,
-- configuration, migrations and infrastructure. These are I/O or wiring, or wait for an extension of
-- this library. Calls of `process` and `reconcile_once` follow one
-- another in Processing/Submissions; for callers that interleave, Repository/Claims speaks of the
-- repository's calls.
pub mod Prelude
pub mod Python
pub mod Core
pub mod Backends
pub mod Application
pub mod Repository
pub mod Processing
pub mod Splunk
pub mod Delivery
pub mod Api
pub mod Tests

-- ===== src/Lib.antt =====
-- A verification library for the services of NetOps Copilot: network operations cases that pass
-- through a guarded state machine, are stored with an immutable history, and are announced
-- through a transactional outbox.
--
-- Parts, and the files that model them:
--
-- Domain (services/api/netops_api/domain/cases.py): States has the enumerations and tables,
--   Cases the data classes with the checks of their constructors and `apply_transition`. Permitted
--   is a specification that does not use the code. Guards, Decision, Refusals and Lifecycle hold
--   the proofs.
-- Storage (services/api/alembic/versions/20260715_02_case_spine.py, the audit table of
--   20260715_01_tenant_identity_rls.py, the index of 20260716_06_artifact_completion_outbox.py):
--   Tables has a record for each table and `Database`, which is all of them; Checks has the CHECK
--   constraints as tests of a row; Inserts has the INSERT statements, which raise `IntegrityError`
--   by the first constraint that fails, and Laws what becomes of a sequence of them.
-- Cases (services/api/netops_api/application/cases.py): Commands, Statements, History, Transitions
--   and Creation model `TenantCaseRepository.create_case`, `get_snapshot`, `persist_transition` and
--   `CaseService.transition`; Listing models `list_cases`, and Walk has a client that follows its
--   pages; Detail models `get_detail`. Consistency states the history that the deferred trigger
--   `netops_assert_case_projection_history` asks for. The other files hold the proofs.
-- Outbox (services/api/netops_api/application/outbox.py,
--   services/worker/netops_worker/outbox_publisher.py, outbox_transport.py): Commands, Statements
--   and Delivery model `TenantOutboxRepository`, Inbox models `TenantConsumerInbox`, Settings and
--   Publisher model `OutboxPublisher`, Transport models `DurableInboxReceiptTransport`. Rules states
--   the trigger `netops_guard_outbox_event_mutation`, and Fates what a cycle does with each event,
--   without the loop. The other files hold the proofs.
-- Keyset: what the paged reads share. Order has the comparison of rows and the interface
--   `StrictOrder`, Sort the `ORDER BY`, Members and Pages the lemmas on pages.
-- Feed (services/api/netops_api/application/event_feed.py): Statements and Read model
--   `TenantCaseEventFeed.read_after`. Replay has a client that follows the pages; Slices, Conversion
--   and Isolation hold proofs.
-- Ledger (services/api/netops_api/application/artifact_processing.py,
--   services/api/alembic/versions/20260716_05_artifact_processing_ledger.py): Tables and Trigger
--   model the table and `netops_validate_artifact_processing_event`, Commands and Record
--   `TenantArtifactProcessingRepository.record_scan_outcome`. The other files hold the proofs.
-- CiscoIos (services/api/netops_api/parsers/cisco_ios,
--   services/api/netops_api/validators/cisco_ios_ipsec.py, models.py): Models, Patterns, Parser and
--   Lines model `parse_cisco_ios_config`, Validator models `validate_phase2_lifetime`. The other
--   files hold the proofs.
-- Worker (services/worker/netops_worker/artifact_processing.py, artifact_processing_persistence.py):
--   Jobs models `artifact_job_from_outbox_event`, Processor `ArtifactProcessor.process` and
--   `ArtifactProcessingPersistence.record`; Completion has the payload that
--   services/api/netops_api/application/artifact_intents.py writes. Verified holds the proofs.
-- Api (services/api/netops_api/api/cases.py, services/api/netops_api/core/auth.py): Principals models
--   `AuthenticatedPrincipal` and the gates of roles and assets, Cases models `get_case` and
--   `_apply_transition`. Refusals and Stored hold the proofs.
-- RateLimit (services/api/netops_api/core/rate_limit.py): Windows models
--   `FixedWindowRateLimiter.check` and `_prune`; Bursts holds the proofs.
--
-- How the parts interact: the service reads a snapshot from the repository, the domain turns it and
-- a command into an outcome, and the repository writes the outcome to five tables in one savepoint,
-- the outbox among them. The publisher leases outbox rows in one transaction, hands each to the
-- transport, and settles each in a transaction of its own.
--
-- Conventions. A method that reads and writes the database is an `Exec`: a function from the store
-- to a result and the store; a savepoint (`atomic`) restores the store when the method raises.
-- A raised exception is a value of `Exception`. A UUID is a natural number, and those that the code
-- draws by `uuid4` are arguments. A `datetime` is its instant in microseconds with its kind of zone,
-- and a column of the database keeps the instant. Text that the code inspects is the list of its
-- code points. A version and an attempt count are natural numbers without PostgreSQL's upper bound.
--
-- Parameters for code outside the repository: SHA-256 of the canonical JSON text (`digest`),
-- `json.loads` (`loads`), `UUID(text)`, `uuid5`, the clock, the rows that other transactions have
-- locked (`skipped`), PostgreSQL's ILIKE, Python's `repr`, and the Unicode database. The transport,
-- the scanner and the redactor are parameters, as they are in the code. Every loop of the code is a
-- recursion on a list. The clients of the paged reads are bounded by a number of pages, and their
-- theorems give one that is enough.
--
-- Not modelled: the other routes and the checks of request bodies, tokens, settings, logging and
-- health probes, which are mostly calls of libraries; row-level security, database roles and their
-- privileges, the one that FOR UPDATE wants included; the loop around `publish_once`; redaction;
-- the artifact store, the upload intents and the ClamAV adapter. A date after the year 9999, which
-- Python refuses, is not refused here.
pub mod Prelude
pub mod Errors
pub mod Exec
pub mod Domain
pub mod Storage
pub mod Cases
pub mod Outbox
pub mod RateLimit
pub mod Keyset
pub mod Feed
pub mod Ledger
pub mod CiscoIos
pub mod Api
pub mod Worker

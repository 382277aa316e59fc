-- ===== src/Lib.antt =====
-- The release engine's job and approval core, modelled from the Go sources.
--
-- Jobs. A row of the table `jobs` is queued, claimed by the scheduler under a lease and a fresh
-- run id, run, and finalised by the runner, which requeues it or ends it; its retry after a
-- failure is an UPDATE that PostgreSQL refuses. A run's writes are fenced by its run id. While a job runs, its module calls the step
-- API, which writes `steps`, waits for approvals and calls connectors. The approval service keeps
-- approval steps in memory, judges decisions by a policy and expires and escalates steps on a
-- timer; it reports to the outbox dispatcher. Jobs enter through the handler CreateJob, under an
-- idempotency key, and decisions on a run's gate through SubmitDecision, both behind
-- authentication and a rate limiter. Webhooks of code hosts and
-- alerting services become DORA events or dead letters, which can be replayed. The infra module renders a request for infrastructure that
-- its template and the checks allow.
--
-- Which file models which code:
--   Approval/State, Policy, Service, Submit, Tick, Queries   internal/transport/http/services.go:
--     the types, PolicyEngine.EvaluateApproval, SeedStep and the constructor, SubmitDecision,
--     TickApprovals (and Tick of approval_worker.go), GetApprovalContext and ListPendingJobs.
--     Approval/History has the service under any sequence of calls.
--   Outbox                  internal/outbox/dispatcher.go
--   Jobs/Table              the tables of internal/db/schema.go and its backoff_interval
--   Jobs/Claim              claimAndDispatch of internal/scheduler/service.go
--   Jobs/Lease              internal/scheduler/lease_manager.go
--   Jobs/Finalise           finaliseSuccess, finaliseFailure, finaliseTerminal, computeNextRunAt of
--     internal/runner/service.go
--   Jobs/Runner             RunJob of internal/runner/service.go
--   Jobs/History            the tables under any interleaving of the single statements of these
--   StepApi                 internal/runner/step_api.go: EndStepOK, EndStepErr, WaitForApproval
--     (Steps, Approvals) and CallConnector (Connect)
--   Connectors              internal/connector: registry.go, base.go, types.go, family.go,
--     family_registry.go, setup.go and DefaultFamilies of config.go
--   Modules                 internal/registry/module_registry.go
--   Intake                  internal/transport/http/job_handler.go: CreateJob (Request, Callback,
--     Store, CreateJob) and SubmitDecision with a pool (Decisions)
--   Access                  internal/transport/http/middleware.go: the rate limiter (Limiter), the JWKS
--     cache (Keys) and the authentication (Auth)
--   Infra                   internal/module/infra/template: types.go (Capabilities, Params),
--     catalog/catalog.go (Catalog), validate.go and two checks of engine.go (Checks), and Render of
--     engine.go up to the parts of the specification (Engine); resolve/ (Resolve) and the fragments
--     database.go, objectstorage.go, blockstorage.go, filestorage.go and cache.go (Spec, Storage)
--   Dora                    internal/dora and internal/transport/http/dora_handler.go: normalizer.go
--     (Events), the four normalizers (Providers), headerMaps and parseStoredHeaderMap (Headers), the
--     tables of events and dead letters (Store), IngestWebhook (Webhook), authorize (Admission),
--     ReplayDeadLetter (Replay), queryCFRStats and the qualities (Rates), and GetDeployments,
--     ListDeadLetter and GetDeadLetter (Reads)
--   Prelude                 dictionaries for Go maps and keyed tables, sorting, results, texts
--
-- How state is modelled: a service behind a mutex is a record, each method one step on it; a table
-- is a dictionary by primary key or a list of rows, each SQL statement one atomic step. What others do
-- between the statements of a run and of its finalisation is a parameter (`world`, `Meanwhile`), the
-- SELECTs of queryCFRStats each read rows of their own (`CfrReads`), and the other handlers'
-- statements run together. Instants
-- and durations are nanoseconds in ℕ; machine integers are counters that stay far below 2^63, and
-- are ℕ. Loops run over finite lists, so no fuel is needed. A call on the database pool may fail,
-- by a Boolean.
--
-- Parameters: float parsing and comparison, case folding, the escalation delay (Runtime), the cron
-- parser (Cron), JSON, the lookup of a module and a module's Execute (Environment), the
-- connectors' methods and the vaults of the secrets library, row locks and generated uuids.
--
-- The limiter's float64 arithmetic is exact here, in whole numbers of 10⁻⁹ tokens. Of the intake,
-- the decoding of bodies, hashes, package net and url.Parse are parameters too; of the
-- authentication, tokens and HTTP; of the DORA handlers, the payloads' JSON, times and case folding.
--
-- Not modelled: the other HTTP handlers, the module factory and resolver, the step executor, the
-- infra module, its other fragments and its manifests, the answer of the DORA summary, audit, observability, the
-- clients of outside services, the command's wiring.
pub mod Access
pub mod Approval
pub mod Connectors
pub mod Dora
pub mod Infra
pub mod Intake
pub mod Jobs
pub mod Modules
pub mod Outbox
pub mod Prelude
pub mod StepApi

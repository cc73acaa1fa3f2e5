-- ===== src/Lib.antt =====
-- PBVex's durable job scheduler, its realtime subscriptions, its order keys and its quota
-- accounting, with the parts of the deployment and storage services that they stand on.
--
-- The parts and how they interact. A caller schedules a function of a deployment (RunAfter,
-- RunAt): the service resolves the deployment, checks the function, inserts a row into the jobs
-- table and raises the deployment's pin counter in the same transaction. Workers, in any number of
-- processes, claim due rows with a lease, run the function, renew the lease while it runs, and
-- write the outcome; every write is a conditional UPDATE on the id, the status and the lease
-- token. Cancel and Retry change rows from requests. The cleanup deletes old finished rows and
-- gives their pins back; the deploy service trims old deployments that no job refers to. The cron
-- manager mirrors the active deployment's recurring jobs in PocketBase's registry. A write
-- invalidates the realtime broadcaster's subscriptions, which run their queries again; an
-- activation reconnects them. A session carries many subscriptions over one stream. The schema
-- package gives every indexed value a key whose bytes SQLite compares. The storage service asks a
-- host's quota service before bytes are written, on uploads and in hooks on record saves, and
-- reports afterwards; the hosting package has the protocol and reference services for it.
--
-- Files. Base: shared names, lists, integers, 64-bit words and texts. Sql: tables and statements
-- (dbx over SQLite), with Sql/Rows and Sql/Unique for their laws. Deploy/Manifest:
-- backend/internal/deploy/manifest.go (FunctionDescriptor, DeploymentConfig, NormalizeConfig).
-- Deploy/Repo: backend/internal/deploy/repo.go (GetDeployment as get_deployment,
-- DeleteOldestInactive as trim_history), backend/internal/deploy/service.go (Resolve, Pin) and
-- backend/internal/schema/schema.go (migratePinCount). Scheduler/Job, Failure, Env: rows, Go
-- errors and what a call takes from outside. Scheduler/Config, Backoff, Service, Cancel, Schedule,
-- Cleanup, Listing: backend/internal/scheduler/service.go (NewService, retryBackoff, findFunction,
-- Cancel, Retry as retry_job, scheduleJob, RunAfter, RunAt, cleanupOld, Get as get_job, List as
-- list_jobs). Scheduler/Polling, Worker and Run: backend/internal/scheduler/worker.go (claim as
-- claim_due, claimOne, renew, fail, complete, retry, deferAdmission, release, handleError,
-- runJob). Scheduler/Cron: backend/internal/scheduler/cron.go. Scheduler/Edges: the diagram of job
-- states, stated without the code. Scheduler/Lifecycle: all of it as a step relation on the shared
-- store. Storage/Quota: backend/internal/storage/quota.go. Storage/NativeQuota:
-- backend/internal/storage/nativequota.go (nativeReserveUpload, nativeSettleUploads,
-- nativeHandleSaveError, nativeStashDeleteSizes, nativeCreditConfirmedDeletes).
-- Realtime/Broadcaster: backend/internal/realtime/realtime.go (NewBroadcaster's defaults as
-- normalized, InvalidateAll, ReconnectAll, subscribeWithFence, unsubscribe, admitStream and the
-- release that it returns) and subscription.go (run as run_once and receive_notify).
-- Realtime/Session: backend/internal/realtime/session.go (addSessionSubscription, remove, forget,
-- closeSession, HandleSessionControl). Schema/Bytes: the byte encodings of Go's library that the
-- keys use. Schema/Value, Canonical, Key, Order and Indexable: backend/internal/schema/order.go
-- (values, canonicalOrderJSON, GenericOrderKey, OrderKeyWithID, IndexableValidator).
-- Hosting/Token, Protocol and Reference: backend/hosting/client.go and reference.go
-- (ReferenceService, ServeHTTP as serve). Hosting/StorageQuota:
-- backend/hosting/storagequota/protocol.go and reference.go (ReferenceQuotaService, ServeHTTP as
-- serve_http). The modules below a component hold its lemmas; Examples holds concrete inputs.
--
-- Conventions. A text that is only compared is a number, 0 for the empty text; a text whose bytes
-- matter is a list of bytes. A DateTime is a number in SQLite's text order, 0 for the empty text.
-- An instant is a number of nanoseconds since the start of year 1; a duration, a byte count and a
-- limit are int64 bit patterns where the code computes with them. A NULL pinCount reads as 0. A
-- map is a list that has each key once, and what runs under one lock is one step, but for
-- ReconnectAll and InvalidateAll, whose cancels and sends after the unlock belong to the completed
-- call. Each statement takes a Fault, the database's choice to run it, to fail before writing, or
-- to fail after writing. What others do between two statements of one call is a function on the
-- table or store. The clock, UUIDs and reservation ids, the JSON of requests, values and cursors,
-- JSON.stringify, the parse of an opaque ID, the filesystem's answers, PocketBase's cron parser,
-- the function invocation and the quota observer's answers are parameters. A new reservation id
-- names no reservation yet, and a new subscription's pointer no other one. A JSON value is a tree,
-- so the check for cycles is left out; the base64 decoder refuses a line break at once, where Go's
-- skips it and the comparison with the canonical text refuses it. A query that runs reads the data
-- at one instant. Log lines, sleeps and contexts are left out.
--
-- Bounds and fuel. Cancel makes four attempts, as maxRetries says. The backoff loop has attempts -
-- 1 rounds, as its counter does. A quota delivery has the three attempts of
-- quotaSettlementAttempts. Every other recursion is on a list, a value or a validator.
--
-- Not modelled: the goroutines, tickers and the semaphore of the worker, whose slots are a
-- parameter; activation, rollback and manifest validation of the deploy service; document
-- validators; the parsing of realtime requests, the payloads and the writer of the event stream;
-- file uploads and key rings; the hosting clients, which are transports; the JavaScript runtime,
-- the HTTP API, authentication and the packages that are not Go.
pub mod Base
pub mod Sql
pub mod Deploy
pub mod Scheduler
pub mod Storage
pub mod Hosting
pub mod Schema
pub mod Realtime
pub mod Examples

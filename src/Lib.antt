-- ===== src/Lib.antt =====
-- Billson's Forms: a self-hosted form backend. A public API accepts submissions and queues them as
-- encrypted delivery jobs; workers claim the jobs and send them by SMTP; a cleanup service deletes
-- what has outlived its retention; administrators manage endpoints and users through web pages
-- behind a session cookie.
--
-- The parts and the files that model them:
--
-- - app/db/models/*.py: Models.antt, a record for each row with the columns as fields. A table is a
--   list of rows with the next primary key, and a handler takes and returns the whole `Database`.
--   Points in time are microseconds since the epoch; `updated_at` is never read and is left out.
-- - app/core/config.py: Config.antt, the settings and their validators; Production.antt, the check
--   of a production configuration, with app/scripts/check_config.py.
-- - app/scripts/create_admin.py: Scripts.antt.
-- - app/services/delivery_queue.py: Queue.antt (`claim_job`, `refresh_job_heartbeat`,
--   `complete_job`, `fail_job`, `retry_backoff_seconds`, and the row that `enqueue_delivery` adds).
--   Any number of processes work on one table: Queue/Steps.antt has an operation of any process as
--   a step, and a run is any sequence of steps.
-- - app/services/rate_limit.py: RateLimit.antt, both the atomic upsert and the re-reading branch.
--   The latter's retries are a list of the tables that failed commits have met, so it needs no
--   fuel.
-- - app/services/retention.py: Retention.antt.
-- - app/core/security.py and app/auth/sessions.py: Sessions.antt.
-- - app/core/client_ip.py: ClientIp.antt.
-- - app/core/network_validation.py, and `is_email` of app/core/endpoint_validation.py:
--   Network.antt.
-- - the snapshot of app/services/delivery_queue.py, and app/core/encryption.py: Snapshot.antt.
-- - app/core/origins.py and app/core/cors.py: Origins.antt.
-- - app/services/settings.py: SettingStore.antt.
-- - app/services/payloads.py: Payloads.antt, and Integers.antt for the `int` that it reads headers
--   with.
-- - app/services/cap.py: Cap.antt.
-- - app/core/endpoint_validation.py: Validation.antt; Validation/Accepted.antt says what a form
--   without errors gives.
-- - app/api/forms.py: Forms.antt, and `submit_form` in Forms/Stages.antt, a function for each
--   stretch between two refusals; Forms/Acceptance.antt names its gates. Forms/Submission.antt
--   follows a submission from the request to the worker. Journey.antt puts the API, the queue and
--   the worker together.
-- - app/services/email.py: Email.antt; Email/Laws.antt describes the body line by line.
-- - app/services/worker.py: Worker.antt, from the heartbeat to the loop of the rounds. A round
--   runs against a schedule that says what other sessions do between its own calls, and when; a
--   heartbeat's loop goes through a list of its turns, so it needs no fuel.
-- - app/auth/passwords.py, app/core/csrf.py, app/services/audit.py, app/web/auth.py and the guards
--   of app/web/dashboard.py and app/web/admin.py: Auth.antt, on the libraries that Platform.antt
--   names.
-- - app/web/endpoints.py: Endpoints.antt, behind the same guards. Endpoints/View.antt relates it to
--   what the API sees, a map from slugs; Endpoints/Recipients.antt has the invariant of endpoints and
--   recipients.
-- - alembic/versions/*.py: Migrations/Revisions, a file for each revision with the statements of
--   both its directions. Migrations/Statements.antt says what a statement does to a catalog of
--   tables, as PostgreSQL documents it, and when it is refused. Migrations/Metadata.antt has the
--   tables that app/db/models declares, which Migrations/Laws.antt relates to the revisions.
-- - app/web/admin_users.py: Users.antt, each handler behind the guards that its route declares.
-- - the GET routes of app/web/dashboard.py, app/web/admin.py, app/web/admin_users.py and
--   app/web/endpoints.py: Pages.antt, what their templates are rendered with.
--
-- Base.antt and its children hold what these share: tests, lists, texts as lists of code points,
-- selections and updates of tables, and tables with distinct keys. Strings.antt has the operations
-- of `str` that the program uses, and Http.antt requests and responses.
--
-- Hashing, argon2, Fernet, JSON, IDNA, `parseaddr`, `urlsplit`, the `ipaddress` library, the SMTP
-- session, the CAP service and the Unicode database are parameters, and every clock reading, salt,
-- nonce and random token is an argument. A submission's body is the list of the chunks that arrive,
-- so reading it needs no fuel; the one function on fuel is `decimal` of Strings.antt, which prints
-- n with n + 1 steps and divides by ten in each. What the page of a refused form shows besides its
-- error is left out, and so are the headers that are the same in every response. The claim's SKIP
-- LOCKED is a parameter that says which rows other transactions hold. The numbers of
-- the settings and of the rows are naturals. The source keeps them as signed integers and checks some:
-- those of an endpoint's form, and of the settings the session lifetime, the payload limit and the two
-- times of the queue's lock. Settings with a negative retention time, login limit or number of attempts
-- pass its checks and are left out here. A subtraction that would go below zero is one of times, where
-- no row is older than the epoch.
--
-- Columns have lengths, and PostgreSQL refuses a text that is longer. Where nothing else bounds the text
-- of a request, the handler asks `fits` of Models.antt: for the two headers in the delivery log, the
-- user agent of a session, the name in the log of a failed login, and the fields of the forms for
-- endpoints and users. The commit then raises, which the API answers with 503 where it catches it. The
-- names that the first administrator types on the command line are not measured. The gap in
-- the keys that a rolled-back row leaves is left out. A catalog has no sequences, so a statement with a default that names one is refused.
--
-- Not modelled: the templates and the static files, which hold no logic of the program; what a
-- revision does to rows; the start-up of the web framework and the database session; the scripts
-- that only start the worker or call the cleanup.
pub mod Base
pub mod Models
pub mod Config
pub mod Strings
pub mod Http
pub mod Auth
pub mod Cap
pub mod ClientIp
pub mod Email
pub mod Endpoints
pub mod Forms
pub mod Integers
pub mod Journey
pub mod Migrations
pub mod Network
pub mod Origins
pub mod Pages
pub mod Payloads
pub mod Platform
pub mod Production
pub mod Queue
pub mod RateLimit
pub mod Retention
pub mod Scripts
pub mod Sessions
pub mod SettingStore
pub mod Snapshot
pub mod Users
pub mod Validation
pub mod Worker

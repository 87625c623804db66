-- ===== src/Lib.antt =====
-- CronQMS is a quality management system: a FastAPI application over a relational database, in
-- which organizations report quality events, run corrective and preventive actions (CAPAs), control
-- documents and train people, and in which every change of an audited row leaves a trail.
--
-- The parts and how they interact. A request comes with an authenticated user; the route asks for a
-- permission, loads the row that the request names and checks that it belongs to the user's
-- organization, calls a workflow service that checks the rules and changes the row, and commits.
-- At the commit, listeners write one row to the trail for each audited column that changed. An
-- exception anywhere before the commit undoes the request.
--
-- Where each part is modelled:
--   * Dates: dates of the proleptic calendar up to the year 9999, `add_months` of
--     app/services/document_workflow.py, and `timedelta` additions of whole days.
--   * Text: `str.strip`, and the decimal and ISO texts of numbers and dates, over code points.
--   * Core/Values, Core/Audit: app/core/audit.py. `after_insert`, `after_update` and `after_delete` are
--     the listeners; `Session` is the actor and the reason that `session.info` carries. Core/Audit/Replay
--     reads a column back from the trail, which is what an auditor does with it.
--   * Core/Permissions: app/core/permissions.py, the permissions, the grants of the legacy roles, and
--     the resolution of a user's permissions from the table of roles.
--   * Core/Sla: app/core/sla.py.
--   * Core/RateLimit: app/core/ratelimit.py. A time is a number of ticks of the monotonic clock.
--   * Models: the columns and derived properties of app/models. Enumerations are data types, whose
--     stored texts are the functions `status_value`, `type_value` and so on.
--   * Db: the tables, and what belongs to one request (the user, the clock, the key of a new row).
--   * Services/EventWorkflow, Services/CapaWorkflow, Services/DocumentWorkflow,
--     Services/TrainingWorkflow, Services/Rbac: the modules of the same names (rbac.py for Rbac) in
--     app/services. A function that mutates its argument returns the new row; a WorkflowError is
--     an `http` error with its code and message. The modules Rules say what each operation accepts and does, the
--     modules Lifecycle follow one row through any sequence of operations.
--   * Routes/Access: the checks that the handlers share. Routes/Scoped: the interface of an audited
--     table of rows that belong to an organization, the shared query by key and the shared commit.
--     Routes/Tables: the tables that implement it.
--   * Routes/Events, Routes/Capas: the handlers of app/api/routes/events.py and
--     app/api/routes/capas.py. `handle` dispatches the requests that write.
--   * Routes/Documents: the handlers of app/api/routes/documents.py. An upload carries the checksum
--     and the storage key that hashlib and the storage give. Routes/Documents/Lifecycle follows one
--     document with its versions through any sequence of operations, and Routes/Documents/Refinement
--     relates the handlers, which work on the tables of a whole database, to those histories.
--   * Routes/Scoped/Removals: what a request does to such a table, written down as an effect, and why
--     every effect keeps to the caller's organization and leaves the trail complete. Routes/Scoped/Ends:
--     the effects of the writes that handlers end with. Routes/Tables/More and
--     Routes/Tables/Unaudited: the tables of changes, audits, training and alerts.
--   * Routes/Nested: the rows that stand under a parent (the impacts and actions of a change, the items
--     and findings of an audit): the shared query, the display order, and slots within a parent.
--   * Routes/Changes, Routes/Audits, Routes/Training, Routes/Alerts: the handlers of the files of these
--     names in app/api/routes. The data type `Request` of a module Requests lists the requests that
--     write, `handle` runs one. Deleting a checklist item unlinks its findings, as the column
--     `checklist_item_id` of app/models/audit.py declares. The form handlers of alerts answer a mistake
--     with a redirect that carries a message: this is the error `http 303`. A date or a number of a
--     form is given by the result of its parse.
--   * Services/OrgSettings, Services/NavConfig: app/services/org_settings.py and nav_config.py.
--     json.loads, json.dumps and the str of a JSON value that is no text are arguments; int() of a
--     setting reads ASCII digits only.
--   * Tests: runs on small inputs, and an instance of each theorem that has hypotheses.
--
-- Conventions. Identifiers and times are native natural numbers; the time of a row is a number of
-- microseconds. A `Result` is a value, an HTTP error with its code and message, or a crash (an
-- exception that is no HTTPException, which the framework answers with 500). A payload's optional field is unset,
-- null, or a value (`Field`). No definition runs on fuel: every loop of the code runs over a list or
-- counts down a number.
--
-- Not modelled: the database engine and its isolation levels (a request runs alone; of the foreign
-- keys, only the unlinking above), the HTTP layer and the validation of payload types and lengths,
-- password hashing and tokens, file storage, the HTML pages and their templates, and the queries of
-- lists, counts and reports.
mod Prelude
pub mod Dates
pub mod Text
pub mod Core
pub mod Models
pub mod Db
pub mod Services
pub mod Routes
mod Tests

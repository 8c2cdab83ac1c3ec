-- ===== src/Lib.antt =====
-- The data-processing service of global-payments-api, data-processing-service/app: the daily job
-- that compares the ledger of payments with the settlement file of the clearing network, the
-- consumer of payment events, and the endpoints and settings in front of them.
--
-- Parts, and the files that model them:
--   * Models: data-processing-service/app/models/reconciliation.py, the rows of both tables and
--     `match_rate`.
--   * Loading: `_load_internal_payments` and `_load_clearing_file` of
--     data-processing-service/app/services/reconciliation_service.py, from the rows of the query
--     and the text of the file to tables of cells. Loading/Query is the SQL of the query.
--   * Reconcile: `_reconcile`, `_classify_record`, `_compute_discrepancy` and `_generate_notes`.
--     Its children hold the theorems: Join on the rows, Rows, Statuses, Total and Columns on the
--     columns that are added, Suffix on the labels of the merge, Pence on amounts of whole pence.
--   * Persist: `_persist_results`, the loop that inserts the records in batches.
--   * Run: `run_daily_reconciliation` and `_upload_report`, which compose the others, with the
--     handler of every exception. A step is a function from the world to a result and the next
--     world. Its children say what the tables hold after a run (Outcomes, Theorems, Stored,
--     Others, Dates), what the counters are (Counts, Flags), what the rows and the records hold
--     (Compared, Records), what a run adds to them (Additions), which payments have records (Stand,
--     Coverage), what happens when the database refuses (Refused), what holds after any number of
--     runs (History), and that a run returns where all that it calls works and the database accepts
--     its records (Storable, Returns).
--   * Kafka: `PaymentEventConsumer.start` and `_process_message` of
--     data-processing-service/app/utils/kafka_consumer.py. Kafka/Thread models its thread,
--     `start_consumer_thread` and `stop_consumer` with the shared flag: a turn is one access of the
--     flag or one call of the client, and other threads take their turns in any order.
--   * Routes: `trigger_reconciliation`, `list_runs`, `get_run` and `get_run_records` of
--     data-processing-service/app/routes/reconciliation.py, `summary` and `exceptions_report` of
--     data-processing-service/app/routes/reports.py, the probes of
--     data-processing-service/app/routes/health.py and the error handlers of
--     data-processing-service/app/__init__.py, as functions from the arguments of a request to a
--     response. Routes/Table holds the rules of the blueprints, Routes/Records/Pages what the pages
--     of the records hold in one order, and Routes/Records/Ascending in an order of each query.
--   * Settings: `get_config` of data-processing-service/app/config/settings.py, and in
--     Settings/Values its classes and what `create_app` of data-processing-service/app/__init__.py
--     chooses of them.
--   * Wsgi: data-processing-service/wsgi.py, which makes the application of Application and starts
--     the consumer by its settings.
--   * Logging: data-processing-service/app/config/logging.py, with what Python's `logging` writes.
--   * Application: `create_app` of data-processing-service/app/__init__.py.
--   * Server: data-processing-service/gunicorn.conf.py.
--   * Environment: data-processing-service/migrations/env.py with the main section of
--     data-processing-service/alembic.ini: which address the migrations are run on, the calls that are
--     made, and where the log goes.
--   * Schema: data-processing-service/migrations/versions/0001_initial.py, the tables that the
--     migration makes, and the records of a run in them: what may be null (Required), and the widths
--     (Widths).
--   * Python, Frame: exceptions, decimals, dates, options and tables as the service uses them.
--     Python/Float is the interface of floats, and Python/Float/Binary64 the doubles of IEEE 754.
--   * Prelude: what all of these share. Tests: runs at concrete data.
--
-- What is not in the repository is a parameter: the session of SQLAlchemy, S3, tenacity's retries
-- and the clock (Services), pandas (Pandas), the text of a float (Python/Float), the Kafka client
-- (Kafka, Wsgi), the calendar and parsing of dates (Routes), the queries of lists and pages
-- (Routes/Lists, Routes/Records), Flask's choice of a rule (Routes/Table), what libraries do to the
-- application (Application), Alembic (Environment), and the database behind it (Schema).
-- `IsSession`, `IsDocumented`, `IsClient`, `IsQuery`, `IsPaginate`, `IsOrderedPaginate`, `IsCollation`,
-- `IsRouter` and `IsDatabase` say what is relied on; Services/Memory, Pandas/Sample, Kafka/Memory, Schema/Memory,
-- Routes/Table/First, Tests/Pages and Tests/Ascending meet them. `IsUp` and `HasInputs` say that these services
-- work, and Tests/Returns shows services that do.
--
-- Bounds: a batch has 500 records and the file is tried three times, as in the code. The consumer's
-- loop is given the number of rounds after which it is stopped; its theorems hold for every number.
-- Every other loop is a recursion on a list.
--
-- The width of a quotient in binary is read in at most 4000 steps, more than the bits of a double's
-- range; interpolation goes ten references deep, as ConfigParser does.
--
-- Pandas gives NaN or NaT for a missing cell of a merge, by the kind of the column, and its conversion
-- of the times of the payments may raise. After a commit that fails, the run is read again, as the
-- session does after the rollback.
--
-- Not modelled: what the engine of SQLAlchemy echoes in development, by a handler of its own; the
-- constants of Flask and of the engine, the metrics, the format of the access log, and the reading
-- and printing of a float as text, which are settings or calls of libraries; the gateway
-- (JavaScript), the payments service (Java) and the infrastructure.
pub mod Prelude
pub mod Python
pub mod Frame
pub mod Pandas
pub mod Logging
pub mod Models
pub mod Services
pub mod Reconcile
pub mod Loading
pub mod Persist
pub mod Run
pub mod Kafka
pub mod Routes
pub mod Schema
pub mod Application
pub mod Server
pub mod Environment
pub mod Settings
pub mod Wsgi
mod Tests

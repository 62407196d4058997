-- ===== src/Lib.antt =====
-- A verification library for StorePulse: a backend that takes the sales and refunds of stores, and
-- a simulator of the stores' points of sale that sends them.
--
-- The program. A point of sale posts events to `POST /api/v1/events`. The backend
-- (backend/app/main.py) hands each to a handler of backend/app/event_ingestion.py, which runs one
-- database transaction: it classifies an `event_id` that is taken, checks a refund against its
-- sale, inserts the row and touches the store. `create_event` turns the outcome into a status code
-- and, after an accepted event, tells the browsers that are connected (backend/app/realtime.py).
-- Heartbeats touch a store too, and `list_stores` shows which stores are online
-- (backend/app/services.py). The simulator draws sales and refunds (simulator/simulator/domain.py)
-- and posts each until it is settled (simulator/simulator/transport.py), by the settings of
-- simulator/simulator/config.py. backend/app/seed.py makes the stores and products that they name.
-- scripts/verify_simulator_smoke.py starts the simulators, watches what arrives, and puts the
-- database back as it was.
--
-- Which file models what.
--   Backend/Models        the rows of backend/app/models.py and the validated payloads of
--                         backend/app/schemas.py
--   Backend/Database      the tables as lists of rows, the constraints that an insert meets, and
--                         the sums over the refunds of a sale
--   Backend/Session       a transaction as a tree of statements, one constructor for each
--                         statement that the code sends; `run` runs it alone
--   Backend/Classify      event_ingestion.py: the lookups and `_classify_existing_event`
--   Backend/Ingestion     event_ingestion.py: `ingest_sale_event`, `ingest_refund_event` and what
--                         they call, by the names of the source without the leading underscore
--   Backend/Api           main.py: `create_event`, `heartbeat`, `list_stores`
--   Backend/Validation    schemas.py: from a JSON body to a validated payload, and the route of
--                         `POST /api/v1/events`; its children Printing and Delivery join it to
--                         the payloads of the simulator
--   Backend/Concurrent    the handlers interleaved: a step relation on the committed tables, the
--                         requests' remaining statements, their locks and their pending inserts
--   Backend/Seed          seed.py: `STORES`, `PRODUCTS` and the two loops of `seed`
--   Backend/Services      services.py: `is_store_online`
--   Backend/Realtime      realtime.py: `ConnectionManager`; its child Dashboard has the socket loop
--                         of main.py
--   Backend/Engine        db.py: the engine and the session factory, made when they are asked for
--   Simulator/Float       Python floats, as numbers of units of 2 ^ -1074
--   Simulator/Rng         the operations of `random.Random` and of float rounding that are used
--   Simulator/Config      config.py: `SimulatorConfig`, `validate`, `from_env`
--   Simulator/Transport   transport.py: `post_event_with_retry`
--   Simulator/Domain      domain.py: the ledger, deliveries and rollbacks; its child Generator has
--                         the `make_` methods, and Traffic their calls in any order
--   Simulator/Runtime     runtime.py: the counters and the workers' steps between two awaits; its
--                         child Tasks has the tasks of `run` and the bounded queue between them
--   Together              one simulator and the backend: the steps of both on one state
--   Scripts/Process       verify_simulator_smoke.py: `run_command`, `compose`, `psql`, and the
--                         scripts as functions on the world, with exceptions as results
--   Scripts/Sql           the SQL texts, and how `sql_literal` quotes
--   Scripts/Services      the containers: `_stop_services`, `start_backend`, `show_diagnostics`
--   Scripts/Watch         the loop of `run_smoke` and what it counts as evidence
--   Scripts/Cleanup       `snapshot_store_state`, `cleanup_verification_data` and
--                         `finalize_verification_run`; its child Laws has the assumptions, and
--                         its child Transaction what the cleanup transaction does to the tables
--                         of Backend/Database
--   Scripts/Smoke         `run_smoke` and `main`
-- A function that is long in the source is several here: the code after an early return or a
-- `select` is a definition of its own. The other child modules hold proofs and are named for them.
--
-- How it is modelled. An instant is a number of microseconds, a UUID a number, and a text column a
-- native string. A JSON value is a type parameter with its equality (`JsonEq`). Integers that the
-- validation has bounded below are naturals; the columns' BIGINT range is a test of the insert.
-- A transaction reads and writes the database that it is given, and a raised exception gives back
-- the one from before. The sockets that join and leave while a broadcast waits for a send are an
-- argument, one change for each wait, and so are the sockets whose send fails.
-- In Backend/Concurrent any transaction may fail at any statement; the isolation is READ COMMITTED,
-- an insert waits for a pending one of the same key, and a row that is locked by FOR UPDATE stays
-- locked until its transaction ends.
-- `random.Random` is a record of functions on a state with the documented ranges as laws. The
-- server's answers to one call of the simulator are a function from the attempt's number.
-- The simulator's tasks run in any order: a list of happenings says which await comes back next and
-- with what. An exception that no task catches stops them all. `expovariate` is an argument, since
-- nothing depends on the length of a pause.
-- A JSON body is a list of keys with values. What pydantic does with the text of a UUID, with a
-- datetime and with white space is a record `Pydantic`, and what the simulator's `str` and
-- `isoformat` write is a record `Printer`; `IsCodec` says that the two agree.
--
-- In Backend/Engine the disposals that are under way end in the reverse order of their beginning.
-- In Together an attempt that reaches the backend is one step: the backend's transaction, and what
-- the worker does with the reply, which arrives or is lost. An attempt that does not reach the
-- backend, or that an outage of its database fails, counts as not made: it changes nothing, unless
-- it is the last that the settings allow. A request that the client has given up, and that the
-- backend handles later, is a further attempt whose reply is lost. The steps do not count attempts,
-- so they allow more runs than the code has. A request of another client is a step of its own, for
-- another store and with another id.
-- Texts and JSON values are those that PostgreSQL stores: what it does with a U+0000, or with a NaN
-- in JSON, which the validation lets through, is not modelled.
--
-- The script's world is a parameter with the operations that it asks for: commands, the monotonic
-- clock in whole milliseconds, pauses, lines of output, and the text functions `strip`, `rstrip`,
-- `splitlines`, `int` and `repr`, the regular expression and the JSON of the standard library.
-- That somebody else starts a container or writes to the database between two checks is excluded
-- by an assumption of Scripts/Cleanup/Laws.
--
-- Fuel. The retry loop takes one unit for an attempt, since the code's own loop has no bound; 1025
-- are enough, because the backoff of the attempt of that number raises. The two loops of the
-- script that wait for a deadline take one unit for a round. Each round pauses, for half a second
-- or for one, so twice the timeout in seconds and one more, or the timeout and one more, are
-- enough; the end of the fuel is an outcome of its own, `unfinished`.
--
-- What is not modelled. The health probes and the routes, which are glue of the framework; values
-- that PostgreSQL refuses although they are valid; in Together the pauses between attempts, with
-- the overflow that ends a call at attempt 1025, and what other clients ask for the simulator's own
-- store; the logging of simulator/simulator/runtime.py, and what its tasks do once one of them has
-- raised; the script's queries, but for its cleanup transaction, and its reading of arguments;
-- scripts/run_ruff.py, which starts a linter; settings, migrations beyond the constraints, the
-- frontend and the deployment.
pub mod Prelude
pub mod Backend
pub mod Simulator
pub mod Together
pub mod Scripts

-- ===== src/Lib.antt =====
-- MeshSettle: offline payments that travel as signed, encrypted packets over a mesh of relays to a
-- bridge, which queues them for a settlement service. This library models the Python code.
--
-- A sender (services/sender) turns a request into a packet. Relays (services/mesh_relay) verify it,
-- add a hop and post it onward; the bridge (services/bridge) verifies it and publishes it to a queue.
-- Consumers (services/settlement) take messages from the queue and settle each packet at most once,
-- with claims in Redis and unique constraints in Postgres. A proxy (services/ui) stands in front of
-- the services, and two scripts make the keys and the environment files that the services read.
--
-- Files and what they model:
-- Crypto: shared/crypto.py. Crypto/Base64, Utf8 and Json are the encodings; Crypto/Signing has the
--   associated data, the signed bytes, the idempotency key and signatures; Crypto/Hybrid has
--   encrypt_payload and decrypt_payload. Crypto/Primitives is the record of the functions of the
--   package cryptography and of hashlib, with what their documentation promises as a record of laws.
-- Models: shared/models.py. Models/Fields has the checks of single fields, Models/Instruction and
--   Models/Packet the two models with their methods, Models/Moment and Uuid the texts of times and
--   ids. Models/Wire is the record of what pydantic and json do with documents, as parameters.
-- Mesh: Mesh/Sender, Mesh/Relay and Mesh/Bridge are the handlers of the three services, with the
--   publishers of services/bridge/publisher.py. Mesh/Relay/Journey chains relays by their documents.
--   FastAPI's reading of a request's body is taken to be that of model_validate_json.
--   Mesh/Bridge/Readable is about what the consumer reads in the messages of the bridge, and
--   Mesh/Bridge/Connection the publisher's connection. Mesh/Wiring takes the settings of a relay.
-- Keys: Keys/Settings and Pem are shared/config.py, Loading and Accessors the functions on keys of
--   shared/crypto.py, Keygen shared/keygen.py, and Bootstrap with its children
--   scripts/bootstrap_env.py. Keys/Library is the record of the functions on PEM texts of the package
--   cryptography, and Bootstrap/Reader what readers of env files are documented to find. Strings has
--   the methods of str, and Bootstrap/Deployed, Trust and Guarded say what is left to the services.
-- Logging: shared/logging.py, the redaction of log entries. safe_fingerprint is in Mesh/Sender.
-- Ui: services/ui/app.py, each route with the calls that it makes and its answer.
-- Settlement: Db and Redis are the two stores, Dedupe and Processor services/settlement/dedupe.py
--   and processor.py, Dedupe/Race the consumers that claim one key, Consumer the answer to a delivery
--   and its connection, Metrics the counters, Views and App the routes of services/settlement/app.py,
--   and Schema the tables of services/settlement/db.py beside the migration in migrations/versions.
--   Effects has the calls on the clock and the stores: the pipeline is a tree of calls with a branch
--   for each reply, and an Event gives the time that passes at a call, the wall clock, and whether its
--   request or its reply is lost. System has the broker and any number of consumers as a step
--   relation, where a step is one call of one consumer, a crash, or a change of the keys in Redis.
--   System/Readings has the times that the consumers' clocks returned along such steps. Ledger is
--   what all of it promises, a set of payments that only grows, with the view of a state as a ledger.
-- Payment: all services together.
-- Prelude: names, lists, tests and numbers that the others share. Tests: concrete runs.
--
-- Bytes and code points are numbers, texts and byte strings are lists of them. Timestamps are the
-- fields of a UTC datetime. Amounts are natural numbers; the widths of the columns are those of the
-- tables. The fuel of a journey counts the nodes that it may visit.
--
-- Not modelled: rate limits, log lines, the set-up of HTTP clients and of the framework, the static
-- page, migrations/env.py and the configuration of structlog, because they are glue around other
-- libraries; the timeout of the settings, which is a float; and a script whose write fails.
--
-- Where the model is narrower than the code: lifetimes in Redis are of one second or more, and Redis
-- refuses EX 0, which the settings allow for the marker of a settlement; the freshness test is exact,
-- and the code's, with floats, agrees with it for settings below 2^34 seconds; PaymentPacket.create
-- leaves out the validators that run on the packet that it has built, which Mesh/Sender/Buildable is
-- about; str of a UUID is written out from the documentation of the standard library.
pub mod Prelude
pub mod Crypto
pub mod Models
pub mod Keys
pub mod Logging
pub mod Mesh
pub mod Settlement
pub mod Ui
pub mod Payment
pub mod Tests

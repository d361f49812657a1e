-- ===== src/Lib.antt =====
-- The Infernet protocol: a marketplace for inference on other people's graphics cards. A control
-- plane (apps/web) keeps providers, jobs and payments in a database; nodes call it with signed HTTP
-- requests; a coordinator (packages/inference) splits a job among several workers. This library
-- models the parts below and proves what makes them correct.
--
-- Auth: packages/auth/src/signed-request.js and keys.js, and apps/web/lib/auth/verify-signed-request.js.
-- Auth/Envelope is the parsing and verification of the envelope, Auth/ReplayCache the class of that
-- name, Auth/Sign the client's `signRequest`, Auth/Gate the check in front of the endpoints. Base64,
-- JSON, hashing and Schnorr signatures are the parameters of the records `Runtime` and `Signer`.
-- Each reading of the clock is an argument.
--
-- Distributed: packages/inference/src/distributed/coordinator.js. Distributed/State is what the
-- coordinator keeps and sends, Distributed/Assign the choice of workers and their shares,
-- Distributed/Jobs the start of a job, Distributed/Settle its end, Distributed/Registry the
-- messages of the workers. A handler is a function from the state to the state and its effects;
-- the answers of the database, the clock and the sockets are the record `World`. The handlers that
-- end a job run up to the point where they wait for the database, with the effect `cleans`; the
-- cleanup of the job is a step of its own. The two halves of `startJob` are steps as well.
-- Distributed/Runs is the coordinator under any sequence of steps. The sockets' server is not
-- modelled.
-- packages/inference/src/distributed/protocol.js and packages/inference/src/distributed/worker.js:
-- Distributed/Wire is the messages and their validation, Distributed/Node the worker with its
-- connection, Distributed/Part its jobs. The waits of the worker end a step, and the objects that a
-- step holds over a wait are places in lists.
--
-- Control: apps/web/lib/data/node-api.js, apps/web/lib/data/node-commands.js,
-- apps/web/lib/data/chat.js and apps/web/lib/cpr.
-- Control/Tables is the database's tables, Control/Store the database client, a parameter that
-- answers or refuses each request as it likes. Control/Specs is the hardware sanitizer,
-- Control/Nodes the registration, heartbeats and removal of nodes, Control/Jobs the polling,
-- completion and events of jobs, Control/Payouts the payout addresses, Control/Commands the
-- commands of owners to their nodes, Control/Receipts the queue of receipts,
-- Control/Chat the routing of chat jobs, where the floating-point weight of a candidate is a
-- parameter. Amounts and times are integers. An exception is a result with the HTTP status.
-- Control/RateLimit is apps/web/lib/rate-limit.js, with its timer as an event.
-- Logging is left out. The other files of each folder hold the proofs, and the tests.
--
-- Engine: packages/engine/src/async-queue.js, packages/engine/src/protocol.js and
-- packages/engine/src/engine-process.js. Engine/AsyncQueue is the queue, where a promise is a
-- number, Engine/Stream its calls and the stream that it stands for, Engine/Protocol the messages
-- as lines, Engine/Process the wrapper of the engine's process, with each queue as a place in a
-- list, since the wrapper and the reader share it. JSON is the parameter `Codec`.
--
-- Payments: packages/payments/src/coinpayportal.js and apps/web/app/api/payments/webhook/route.js.
-- Payments/Gateway is the check and the parsing of a callback, Payments/Webhook what it changes in
-- the tables. JSON, HMAC and letter case are the parameter `Gateway`.
--
-- Sanitizer: apps/web/lib/sanitize-stream.js. Sanitizer/Tags is the search for tags, Sanitizer/Stream
-- the state of a stream and its operations. A text is the list of its UTF-16 units; the methods of
-- strings and the expression `OPEN_PATTERN` are written out.
--
-- Streaming: apps/web/lib/data/chat-stream.js. Streaming/Events is the stored events, Streaming/Live the
-- queue of the later ones and the loop that empties it, Streaming/Fallback the relay of a service's
-- stream, with a consumer that may stop at any event. Inserted rows and turns of the loop are
-- events.
--
-- Daemon: apps/cli/lib/chat-executor.js and apps/cli/commands/start.js. Daemon/Upload is a chat job
-- with the batches of events that it posts, Daemon/State what the daemon keeps, Daemon/Loop its steps
-- between the points where its code waits, Daemon/Commands the commands of owners and the requests
-- over the socket. The calls of pollJobs under way are a list, since polls overlap. The first calls
-- and the setting of the timers are steps too; the option `--once` is left out.
--
-- Models: packages/db/src/models. Models/Rows is the requests to one table, Models/Jobs and
-- Models/JobQueries are job.js, Models/Nodes is what provider.js, aggregator.js and client.js
-- share, and Models/Kinds is where they differ; Models/Searches is findAvailable, Models/Connection is
-- index.js and utils.js, and Models/Naming which property sets which column. A row is an object; an update that asks for the one row
-- fails without a change where it finds none or several.
--
-- The loops of the source run over lists and are structural recursion, except that of the line
-- splitter of packages/engine, which runs on as much fuel as its text has characters, and one
-- more: each turn takes a line break off the text. The loop of the sanitizer has as much fuel,
-- since each turn but the last shortens the buffer. Not modelled are the pages and routes of
-- apps/web, the other commands, the desktop and mobile applications, the engines' adapters, the
-- calls of payment services, deployment and training: they are presentation, input and output, or
-- calls of other services.
pub mod Common
pub mod Auth
pub mod Distributed
pub mod Engine
pub mod Payments
pub mod Models
pub mod Daemon
pub mod Control
pub mod Sanitizer
pub mod Streaming

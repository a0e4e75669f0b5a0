-- ===== src/Lib.antt =====
-- A verification library for otus-app: models of the service's Go code and theorems about them.
--
-- The program takes messages over HTTP and gRPC and stores them in PostgreSQL together with tasks of a
-- transactional outbox. A worker for each broker leases tasks, publishes their events and marks them as
-- delivered; a consumer reads the events from Kafka, RabbitMQ or NATS, saves them in Cassandra and puts
-- them into Elasticsearch. Files are kept in S3 and HDFS. A gateway stands in front of the app, over HTTP
-- and over gRPC, and a chaos proxy may stand between the two. Calls to other services go through retries
-- with jitter and a circuit breaker, which the rate limiter shares.
--
-- Where the code is modelled:
--   Text             what the code takes from strings, strconv and net/http's headers, over lists of code
--                    points
--   Resilience       internal/resilience: Jitter (Jitter, Backoff), Retry (Policy.Do, Wait), Breaker,
--                    Http (RoundTrip)
--   Messaging        internal/domain/messaging, internal/application/messages
--   Storage          internal/storage: Tables, Messages (Create, List), Outbox (Claim, Complete, Retry,
--                    and Histories for sequences of statements on its table)
--   Outbox           internal/outbox/worker.go: the loop of run
--   Http             internal/handlers: Params and Ranges (the readers of parameters), Messages
--                    (createMessage, listMessages, listAudit, readiness), Files (downloadFile,
--                    uploadFile), Search (the other handlers of storage.go)
--   Rpc              internal/grpcserver/server.go: authorization and the four methods
--   Gateway          cmd/gateway: main.go (forward), and Calls for grpc.go
--   ChaosProxy       cmd/chaosproxy/main.go: ServeHTTP, copyThrottled, controlSet
--   Hdfs             internal/hdfsstore/hdfsstore.go: Get, Stat, List, and Writing (Put, closeWithRetry)
--   Blob             internal/blobstore/blobstore.go: Versions, FindByTag, and Objects (the other methods)
--   RateLimit        internal/ratelimit/ratelimit.go: the counter's script and the middleware
--   Security         internal/security: jwt.go (keyFor and refreshKeys), Gate (Validate, Middleware), and
--                    Tls for tls.go
--   Broker           internal/broker: broker.go (and Select), Kafka (Consume), its Topic
--                    (ensureTopic, Publish), Rabbit (the connection, Publish, Consume),
--                    Nats (Publish, Consume), and Deliveries, which the last two share
--   Consumer         cmd/consumer/main.go: the handler of events and supervise
--   Cassandra        internal/cstore/cstore.go: Save, ByID, Recent, Scan, retryPolicy.Attempt
--   Search           internal/search/search.go: ensure, indexing and the searches
--   Tarantool        internal/tcache/tcache.go: Get, Set, Delete
--   Coordination     internal/coord/coord.go: WithLock, WatchInt
--   Tests            the theorems at concrete inputs, and runs of the models
-- Proofs stand in child modules named for what they prove, such as Storage.Outbox.Leases. Some of them put
-- components together: ChaosProxy.Repeat (proxy, HTTP handler and PostgreSQL), Gateway.Calls.Statuses
-- (gateway, transport, gRPC service and HTTP handler), Consumer.Delivery (Kafka, the consumer, Cassandra and the search
-- index), Tarantool.Contract (the cache as the HTTP handlers use it).
--
-- How the code is read. A Go string is a list of code points; times and durations are nanoseconds. A
-- method that changes its receiver returns the new record, a Go error is an Option or a Result. What the
-- program does not implement is an argument: the database's faults, the broker's answers, the context,
-- the clock, the random source, SHA-256, JSON. A SQL statement is a function on lists of rows, and the
-- sequence of identifiers is not set back by a rollback; the spaces of Tarantool are read in the same way.
-- What is opened and closed (bodies of responses, sockets, readers) is counted or listed in the state. The
-- loop of Policy.Do runs on fuel, one round for each attempt of its budget, which is shown to be enough;
-- the throttled copy runs on as much fuel as the body has bytes; a loop that ends with its context runs over
-- the list of its rounds; the other loops are structural.
--
-- Not modelled: connection set-up, migrations, logging and tracing, the exact text of JSON answers, the
-- settings of TLS, the status page, and the drivers of the databases and brokers.
pub mod Base
pub mod Text
pub mod Resilience
pub mod Messaging
pub mod Storage
pub mod Outbox
pub mod Http
pub mod Rpc
pub mod Hdfs
pub mod RateLimit
pub mod Security
pub mod Broker
pub mod Cassandra
pub mod Blob
pub mod Search
pub mod Coordination
pub mod Tarantool
pub mod Consumer
pub mod Gateway
pub mod ChaosProxy
mod Tests

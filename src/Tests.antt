-- ===== src/Tests.antt =====
-- The theorems at concrete inputs, and runs of the models.
mod Resilience
mod Storage
mod Outbox
mod Rpc
mod Http
mod Access
mod Broker
mod Cassandra
mod Search
mod Blob
mod Retries
mod Gateway
mod Consumer
mod Files
mod Cached
mod Rabbit

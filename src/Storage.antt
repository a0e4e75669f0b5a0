-- ===== src/Storage.antt =====
-- internal/storage: the tables of postgres.go and outbox.go, and their operations. A SQL statement is
-- a function on the tables; the database's faults are arguments. Times are nanoseconds.
pub mod Tables
pub mod Messages
pub mod Outbox

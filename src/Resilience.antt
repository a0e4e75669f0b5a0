-- ===== src/Resilience.antt =====
-- internal/resilience: retries with jitter (retry.go), the circuit breaker (breaker.go) and the HTTP
-- transport that joins them (http.go).
pub mod Jitter
pub mod Retry
pub mod Breaker
pub mod Http

-- ===== src/Concurrency.antt =====
-- The concurrency limits of packages/agent/src: settings and allocation (concurrency-policy.ts),
-- the in-process limiter (concurrency-limiter.ts) and the permits of a run
-- (concurrency-controller.ts).
pub mod Policy
pub mod Grants
pub mod Limiter
pub mod Permit

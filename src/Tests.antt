-- ===== src/Tests.antt =====
-- Examples: each theorem with hypotheses applied at a concrete input.
pub mod Packed
pub mod Blocking
mod Serving
mod Concurrent
mod Metrics
mod Router
pub mod Apis
mod Limits
mod Failures
mod Least
mod Nodes
mod Requests
mod Handler
mod Assembly

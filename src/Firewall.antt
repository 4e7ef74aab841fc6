-- ===== src/Firewall.antt =====
-- `AntelopeFirewall::handle_request` of antelope-firewall-lib/src/firewall_builder.rs, in the order
-- of its steps: the body, the choice of a node, the exchange with it, the headers of the answer.
pub mod Body
pub mod Decoding
pub mod Route
pub mod Headers
pub mod Naming
pub mod Replies
pub mod Loops
pub mod Handler
pub mod Assembly
pub mod Names
pub mod Target
pub mod Forwarding
pub mod Refusing
pub mod Unpacking
pub mod Blocking
pub mod Blocked
pub mod Serving
pub mod Concurrent

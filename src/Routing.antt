-- ===== src/Routing.antt =====
-- enclave/src/routing.mjs: the directives that horse-power answers with, on the body of a request.
pub mod SpendCap
pub mod Capped
pub mod Strips
pub mod Cleaned
pub mod Provider
pub mod Transform
pub mod Routed
pub mod Tests

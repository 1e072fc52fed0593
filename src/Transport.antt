-- ===== src/Transport.antt =====
-- The package transport: requests, their signatures, handlers and invokers.
pub mod Response
pub mod Request
pub mod Interceptor
pub mod Handler
pub mod Invoker
pub mod Connect
pub mod Start
pub mod Samples
mod Tests

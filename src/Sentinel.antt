-- ===== src/Sentinel.antt =====
-- The folder sentinel: the rules that the console sends, and the handlers of its commands.
pub mod Floats
pub mod Rules
pub mod Acm
pub mod Metric
pub mod Nodes
mod Tests

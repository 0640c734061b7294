-- ===== src/Hub.antt =====
-- The Registry Hub of runtime/source/src/main.cpp with registry_rgd.inc and registry_dispatch.inc:
-- scripts of {tokens} with branches and includes, compiled into a sequence of tasks.
pub mod Tokens
pub mod Branches
pub mod Host
pub mod Rgd
pub mod Segment
pub mod Dispatch
pub mod Conditions
mod Tests
mod ConditionTests

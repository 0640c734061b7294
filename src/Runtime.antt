-- ===== src/Runtime.antt =====
-- Texts of the runtime, runtime/source/src/main.cpp.
pub mod Text
pub mod Escapes
pub mod Quoting
pub mod Base64
pub mod Arguments
pub mod Brackets
pub mod Decimal
pub mod Coordinates
pub mod Places
pub mod Settings
pub mod Environment
pub mod KeyHistory
mod Tests
mod EnvironmentTests
mod KeyTests

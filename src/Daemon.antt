-- ===== src/Daemon.antt =====
-- The HTTP trigger daemon of http-daemon/.
pub mod Types
pub mod Platform
pub mod Responses
pub mod Registry
pub mod Executor
pub mod Server
pub mod World
pub mod Runner
pub mod Loader
pub mod Tests
pub mod ServerTests
pub mod LoaderTests

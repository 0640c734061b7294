-- ===== src/Daemon/Server.antt =====
-- http-daemon/src/HttpServer.cpp: the HTTP front of the daemon. A handler is one step on the whole
-- state, with the clock as an argument; what its threads interleave with is in Daemon/Runner/Race.
pub mod State
pub mod Files
pub mod TempName
pub mod Scheduling
pub mod Queries
pub mod Values
pub mod Routes
pub mod Access
pub mod Effects
pub mod Stores

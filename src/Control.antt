-- ===== src/Control.antt =====
-- The control protocol of the runtime: runtime/source/src/control_protocol.hpp,
-- control_skills.hpp and the access checks of control_api.cpp.
pub mod Checked
pub mod Text
pub mod Csv
pub mod Checks
pub mod Normalize
pub mod Skills
pub mod Api
pub mod Tests
pub mod NormalizeTests
pub mod SkillTests
pub mod ApiTests

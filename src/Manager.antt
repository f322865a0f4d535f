-- ===== src/Manager.antt =====
-- The controller of the system manager, de-ui-system-tools/app/system-manager/system-manager.js: the
-- list of systems with its refresh, the requests of the user, and the properties on display.
pub mod Model
pub mod Merge
pub mod Refresh
pub mod Actions
pub mod Pages
pub mod LogText
pub mod Logs
mod LogTests
mod Tests

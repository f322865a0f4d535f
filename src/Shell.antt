-- ===== src/Shell.antt =====
-- The shell of the pages: the steps of the tour (app.js, app.content.js).
pub mod Tour
pub mod Relay
pub mod Metadata
mod Tests
mod RelayTests
mod MetadataTests

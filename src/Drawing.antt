-- ===== src/Drawing.antt =====
-- The directives that draw the canvas, de-ui-system-tools/app/assets/lib/directives.js.
pub mod Lines
pub mod Zoom
mod Tests
mod LineTests

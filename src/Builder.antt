-- ===== src/Builder.antt =====
-- The system builder, de-ui-system-tools/app/system-builder/system-builder.controller.js: its data,
-- the system descriptor that it saves, validation, and the operations on the canvas.
pub mod Model
pub mod Json
pub mod Streams
pub mod Forms
pub mod Scan
pub mod Check
pub mod Canvas
pub mod Connect
pub mod Session
pub mod Steps
pub mod Samples
pub mod Cycles
mod Tests
mod CanvasTests
mod StepTests
mod FormTests

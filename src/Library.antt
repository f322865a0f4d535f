-- ===== src/Library.antt =====
-- The controller of the operator library, de-ui-system-tools/app/operator-library/operator-library.js:
-- the operators with their properties, and the validation rules that users write.
pub mod Operators
pub mod Rules
pub mod Validations
mod RequestTests
mod Tests

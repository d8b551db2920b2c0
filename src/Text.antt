-- ===== src/Text.antt =====
-- C strings: src/string.c over memory, and `sanitize_input` of src/security.c.
pub mod Memory
pub mod Copies
pub mod Decimal
pub mod Strings
pub mod Sanitize
mod Tests

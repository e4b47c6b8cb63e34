-- ===== src/Lang.antt =====
-- The language menu of the header: `header-lang-dropdown.js`.
pub mod Menu
pub mod Change
pub mod Popper
mod Tests

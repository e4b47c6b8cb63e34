-- ===== src/Eid.antt =====
-- `iam-proxy-italia-project/static/js/eid-cards-loader.js`, the page on which a user chooses a
-- digital identity.
pub mod Bundle
pub mod Entries
pub mod Slug
pub mod Menu
pub mod Dropdown
pub mod LearnMore
pub mod Cards
pub mod Document
pub mod Page
pub mod Session
mod Tests

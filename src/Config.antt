-- ===== src/Config.antt =====
-- `iam-proxy-italia-project/static/scripts/apply-config.js`, the build step that writes the branding
-- configuration into the locale and HTML files.
pub mod Paths
pub mod Regex
pub mod Html
pub mod Branding
pub mod Edits
pub mod Pipeline
pub mod Build
mod Tests

-- ===== src/Wallet.antt =====
-- The page that lists the wallets: `it-wallet-loader.js`.
pub mod Order
pub mod Find
pub mod Controls
pub mod Document
pub mod Cards
pub mod Grid
pub mod Load
pub mod Session
mod Tests

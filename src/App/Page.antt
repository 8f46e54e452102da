-- ===== src/App/Page.antt =====
-- What `App` renders.
pub mod Handlers
pub mod Safe
pub mod Throws
pub mod Returns
pub mod TopBar
pub mod Intro
pub mod Snapshot
pub mod Filters
pub mod Analysis
pub mod Ledger
pub mod Render
pub mod Offers

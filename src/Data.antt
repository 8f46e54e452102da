-- ===== src/Data.antt =====
-- services/ui/frontend/src/data.ts, one module to a function.
pub mod Unique
pub mod Visible
pub mod Groups
pub mod Points
pub mod Charts

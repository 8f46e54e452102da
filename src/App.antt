-- ===== src/App.antt =====
-- services/ui/frontend/src/App.tsx.
pub mod Session
pub mod View
pub mod Page

-- ===== src/Chart.antt =====
-- services/ui/frontend/src/ChartPanel.tsx.
pub mod Props
pub mod Option
pub mod Escape
pub mod Options
pub mod Tooltip
pub mod Lifecycle

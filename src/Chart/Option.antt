-- ===== src/Chart/Option.antt =====
-- The option that the panel gives to ECharts.
pub mod Series
pub mod Axes
pub mod Controls
pub mod Whole
pub mod Ids

-- ===== src/Tui.antt =====
-- src/tui/dashboard.rs: the terminal dashboard.
pub mod History
pub mod Gauges
pub mod Terminal
pub mod Dashboard
pub mod Tests

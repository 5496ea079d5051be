-- ===== src/Window.antt =====
-- internal/window/window.go: maintenance windows, each a cron expression for the instants at which it
-- opens and a duration for which it then stays open.
pub mod Text
pub mod Cron
pub mod Ranges
pub mod Openings
pub mod Openness

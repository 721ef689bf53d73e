-- ===== src/Drac.antt =====
-- drac.go: the sessions with controllers, their clients and their frames.
pub mod Recents
pub mod Sessions
pub mod Handler
pub mod Video
pub mod Control

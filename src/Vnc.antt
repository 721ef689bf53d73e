-- ===== src/Vnc.antt =====
-- vnc.go: the server for one VNC client, and the pixel formats, messages and frames that it exchanges.
pub mod Handshake
pub mod Messages
pub mod PixelFmt
pub mod Reader
pub mod Update
pub mod Writer
pub mod Pacing

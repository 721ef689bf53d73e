-- ===== src/Tests.antt =====
-- Tests: each property with hypotheses at an input that meets them.
mod Console
mod Controllers
mod Departures
mod Images
mod Memory
mod Endings
mod Other
mod Pacing
mod Session
mod Streams
mod Visits
mod Web

-- ===== src/Tests.antt =====
-- The theorems at concrete data, and runs of the definitions: httpd/ as it serves one client and one
-- generator.
pub mod Boards
pub mod Proxying
mod Arriving
mod Parsing
mod Urls
mod Serving
mod Replying
mod Serial
pub mod Commanding
mod Controlling
mod Writing
mod Starting
mod Wiring

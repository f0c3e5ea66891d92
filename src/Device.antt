-- ===== src/Device.antt =====
-- The pulse generator and its serial line: httpd/serialport.cpp, httpd/bnc565.cpp,
-- httpd/dgprotocol.hpp and httpd/dgprotocols.hpp.
pub mod Serial
pub mod Receive
pub mod Floats
pub mod Protocols
pub mod Bnc565
pub mod Json
pub mod Control

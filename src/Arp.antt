-- ===== src/Arp.antt =====
-- The proxy of another instrument, a mass spectrometer whose registers are reached over USB:
-- httpd/arpproxy.cpp.
pub mod Words
pub mod Usb
pub mod Vector
pub mod Bits
pub mod Setpoints
pub mod Status
pub mod Proxy
pub mod Worker
pub mod Responses
pub mod Events
pub mod Facade
pub mod Board
pub mod Digitizer

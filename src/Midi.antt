-- ===== src/Midi.antt =====
-- cotton-usb-host-midi, the USB MIDI class driver.
pub mod Driver
pub mod Packet
pub mod Identify
pub mod Write
pub mod Read
mod Tests

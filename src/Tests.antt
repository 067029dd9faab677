-- ===== src/Tests.antt =====
-- The theorems at concrete inputs: sample devices, packets and tables, and one instance of each theorem.
mod Samples
mod Wire
mod Routing
mod Security
mod Joining
mod Handshake
mod Eeprom
mod Building
mod Corruption
mod Portal
mod Text

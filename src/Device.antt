-- ===== src/Device.antt =====
-- The device side of the tool: device/ra8_srec_programmer.py, and the packets and commands of
-- device/ra8_provisioning_client.py.
pub mod Region
pub mod Merge
pub mod Phrase
pub mod Serial
pub mod Command
pub mod Boot
pub mod Program
mod Tests

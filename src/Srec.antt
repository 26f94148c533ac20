-- ===== src/Srec.antt =====
-- S-record files: the parser of the programmer, and utils/srec_manager.py.
pub mod Hex
pub mod Parse
pub mod Manager
pub mod Program
mod Tests

-- ===== src/Daemon.antt =====
-- usrp_testbed_library: the daemons beside the radio.
pub mod Signal
pub mod Store
pub mod Transmit
pub mod Radio
pub mod Asked
pub mod Tuning
pub mod Configure
pub mod Reference
pub mod Receive
pub mod Mismatch
pub mod Values
pub mod Fields
pub mod Server

-- ===== src/Channel.antt =====
-- worker/channel.py: the worker's side of the radio.
pub mod Duty
pub mod Routing
pub mod Burst

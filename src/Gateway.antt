-- ===== src/Gateway.antt =====
-- entrypoint/main.py: the WebSocket service that takes a signal in and hands the result out.
pub mod Slots
pub mod Request

-- ===== src/Examples.antt =====
-- Concrete inputs for the theorems, and tests of the definitions on them.
mod Overrides
mod Signals
mod Uploads
mod Queue
mod Radio
mod Hardware
mod Bursts
mod Cookies
mod Transmissions
mod Configurations
mod References
mod Requests
mod Captures

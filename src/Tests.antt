-- ===== src/Tests.antt =====
-- Runs of the model at concrete inputs, and the theorems applied to them.
mod Wire
mod Protocol
mod Transport
mod Kestrel
mod Wheels
mod System
mod Callbacks
mod Sent
mod Moved
mod Sessions

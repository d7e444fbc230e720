-- ===== src/Protocol/Payload/Received.antt =====
-- The payloads that the firmware sends: the fields, the sizes, and the copy of the bytes into the
-- struct. `_to_bytes` is the firmware's copy the other way.
mod Motion
mod Status
unfoldable pub use Motion.*
unfoldable pub use Status.*

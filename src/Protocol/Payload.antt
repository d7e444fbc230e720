-- ===== src/Protocol/Payload.antt =====
-- The packed payload structs of binary_protocol.hpp. A signed field is an integer, and its bytes
-- are those of its bit pattern; `memcpy` of a struct is the fields one after the other, as on the
-- little-endian machines that the protocol supposes.
pub mod Sent
pub mod Received
pub mod RoundTrip

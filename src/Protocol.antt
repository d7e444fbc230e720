-- ===== src/Protocol.antt =====
-- binary_protocol.hpp and binary_protocol.cpp.
pub mod Crc
pub mod Frame
pub mod Stream
pub mod MsgId
pub mod AckStatus
pub mod Payload
pub mod Led

-- ===== src/Protocol/AckStatus.antt =====
-- `AckStatus` of binary_protocol.hpp: an enumeration over `uint8_t` to which any status byte is cast,
-- so its values are the bytes, and the names are some of them.
use my_diffbot.Common.{ℕ}

abbrev pub AckStatus : Type 0
AckStatus = ℕ

abbrev pub ok : AckStatus
ok = 0x00

abbrev pub invalid_param : AckStatus
invalid_param = 0x01

abbrev pub command_failed : AckStatus
command_failed = 0x02

abbrev pub timeout : AckStatus
timeout = 0x03

abbrev pub unknown : AckStatus
unknown = 0xFF

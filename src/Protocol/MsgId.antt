-- ===== src/Protocol/MsgId.antt =====
-- Namespace `MSG_ID` of binary_protocol.hpp.
use my_diffbot.Common.{ℕ}

abbrev pub handshake : ℕ
handshake = 0x09

abbrev pub wheel_velocity : ℕ
wheel_velocity = 0x01

abbrev pub set_pid_gains : ℕ
set_pid_gains = 0x03

abbrev pub set_cmd_timeout : ℕ
set_cmd_timeout = 0x04

abbrev pub reset : ℕ
reset = 0x05

abbrev pub deactivate : ℕ
deactivate = 0x08

abbrev pub rgb_led_set : ℕ
rgb_led_set = 0x36

abbrev pub wheel_feedback : ℕ
wheel_feedback = 0x10

abbrev pub imu_data : ℕ
imu_data = 0x11

abbrev pub pid_debug : ℕ
pid_debug = 0x13

abbrev pub heartbeat : ℕ
heartbeat = 0x20

abbrev pub ack : ℕ
ack = 0xF0

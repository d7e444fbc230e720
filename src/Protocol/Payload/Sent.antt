-- ===== src/Protocol/Payload/Sent.antt =====
-- The payloads that the host sends: the fields, the sizes, and `ToBytes` of kestrel_transport.hpp.
use my_diffbot.Common.{ℕ, ◌^◌, ◌<◌, List, [], ◌∷◌}
use my_diffbot.Common.Int.{ℤ, Fits, to_bits}
use my_diffbot.Common.Bytes.{Layout, pack}

abbrev pub protocol_version : ℕ
protocol_version = 1000000

-- 0x09 - 12 bytes
pub record HandshakePayload : Type 0 where
  pub timestamp_sec : ℕ
  pub timestamp_nsec : ℕ
  pub protocol_ver : ℕ

abbrev pub handshake_layout : Layout
handshake_layout = 4 ∷ 4 ∷ 4 ∷ []

abbrev pub handshake_values : HandshakePayload → List ℕ
handshake_values p = p.timestamp_sec ∷ p.timestamp_nsec ∷ p.protocol_ver ∷ []

unfoldable pub handshake_to_bytes : HandshakePayload → List ℕ
handshake_to_bytes p = pack handshake_layout (handshake_values p)

-- Every field is in the range of its type.
abbrev pub HandshakePayloadFits : HandshakePayload → Type 0
HandshakePayloadFits p =
    (p.timestamp_sec < 2 ^ 32) × (p.timestamp_nsec < 2 ^ 32) × (p.protocol_ver < 2 ^ 32)

-- 0x01 - 16 bytes
pub record WheelVelocityPayload : Type 0 where
  pub timestamp_sec : ℕ
  pub timestamp_nsec : ℕ
  pub left_wheel_mrps : ℤ
  pub right_wheel_mrps : ℤ

abbrev pub wheel_velocity_layout : Layout
wheel_velocity_layout = 4 ∷ 4 ∷ 4 ∷ 4 ∷ []

abbrev pub wheel_velocity_values : WheelVelocityPayload → List ℕ
wheel_velocity_values p =
    p.timestamp_sec
    ∷ p.timestamp_nsec
    ∷ to_bits (2 ^ 31) p.left_wheel_mrps
    ∷ to_bits (2 ^ 31) p.right_wheel_mrps
    ∷ []

unfoldable pub wheel_velocity_to_bytes : WheelVelocityPayload → List ℕ
wheel_velocity_to_bytes p = pack wheel_velocity_layout (wheel_velocity_values p)

-- Every field is in the range of its type.
abbrev pub WheelVelocityPayloadFits : WheelVelocityPayload → Type 0
WheelVelocityPayloadFits p =
    (p.timestamp_sec < 2 ^ 32)
    × (p.timestamp_nsec < 2 ^ 32)
    × Fits (2 ^ 31) p.left_wheel_mrps
    × Fits (2 ^ 31) p.right_wheel_mrps

-- 0x03 - 32 bytes
pub record SetPidGainsPayload : Type 0 where
  pub timestamp_sec : ℕ
  pub timestamp_nsec : ℕ
  pub kp_left : ℤ
  pub ki_left : ℤ
  pub kd_left : ℤ
  pub kp_right : ℤ
  pub ki_right : ℤ
  pub kd_right : ℤ

abbrev pub set_pid_gains_layout : Layout
set_pid_gains_layout = 4 ∷ 4 ∷ 4 ∷ 4 ∷ 4 ∷ 4 ∷ 4 ∷ 4 ∷ []

abbrev pub set_pid_gains_values : SetPidGainsPayload → List ℕ
set_pid_gains_values p =
    p.timestamp_sec
    ∷ p.timestamp_nsec
    ∷ to_bits (2 ^ 31) p.kp_left
    ∷ to_bits (2 ^ 31) p.ki_left
    ∷ to_bits (2 ^ 31) p.kd_left
    ∷ to_bits (2 ^ 31) p.kp_right
    ∷ to_bits (2 ^ 31) p.ki_right
    ∷ to_bits (2 ^ 31) p.kd_right
    ∷ []

unfoldable pub set_pid_gains_to_bytes : SetPidGainsPayload → List ℕ
set_pid_gains_to_bytes p = pack set_pid_gains_layout (set_pid_gains_values p)

-- Every field is in the range of its type.
abbrev pub SetPidGainsPayloadFits : SetPidGainsPayload → Type 0
SetPidGainsPayloadFits p =
    (p.timestamp_sec < 2 ^ 32)
    × (p.timestamp_nsec < 2 ^ 32)
    × Fits (2 ^ 31) p.kp_left
    × Fits (2 ^ 31) p.ki_left
    × Fits (2 ^ 31) p.kd_left
    × Fits (2 ^ 31) p.kp_right
    × Fits (2 ^ 31) p.ki_right
    × Fits (2 ^ 31) p.kd_right

-- 0x04 - 10 bytes
pub record SetCommandTimeoutPayload : Type 0 where
  pub timestamp_sec : ℕ
  pub timestamp_nsec : ℕ
  pub timeout_ms : ℕ

abbrev pub set_command_timeout_layout : Layout
set_command_timeout_layout = 4 ∷ 4 ∷ 2 ∷ []

abbrev pub set_command_timeout_values : SetCommandTimeoutPayload → List ℕ
set_command_timeout_values p = p.timestamp_sec ∷ p.timestamp_nsec ∷ p.timeout_ms ∷ []

unfoldable pub set_command_timeout_to_bytes : SetCommandTimeoutPayload → List ℕ
set_command_timeout_to_bytes p = pack set_command_timeout_layout (set_command_timeout_values p)

-- Every field is in the range of its type.
abbrev pub SetCommandTimeoutPayloadFits : SetCommandTimeoutPayload → Type 0
SetCommandTimeoutPayloadFits p =
    (p.timestamp_sec < 2 ^ 32) × (p.timestamp_nsec < 2 ^ 32) × (p.timeout_ms < 2 ^ 16)

-- 0x05, 0x08 - 8 bytes
pub record TimestampPayload : Type 0 where
  pub timestamp_sec : ℕ
  pub timestamp_nsec : ℕ

abbrev pub timestamp_layout : Layout
timestamp_layout = 4 ∷ 4 ∷ []

abbrev pub timestamp_values : TimestampPayload → List ℕ
timestamp_values p = p.timestamp_sec ∷ p.timestamp_nsec ∷ []

unfoldable pub timestamp_to_bytes : TimestampPayload → List ℕ
timestamp_to_bytes p = pack timestamp_layout (timestamp_values p)

-- Every field is in the range of its type.
abbrev pub TimestampPayloadFits : TimestampPayload → Type 0
TimestampPayloadFits p = (p.timestamp_sec < 2 ^ 32) × (p.timestamp_nsec < 2 ^ 32)

-- 0x36 - 12 bytes
pub record RgbLedSetPayload : Type 0 where
  pub timestamp_sec : ℕ
  pub timestamp_nsec : ℕ
  pub red : ℕ
  pub green : ℕ
  pub blue : ℕ
  pub mode : ℕ

abbrev pub rgb_led_set_layout : Layout
rgb_led_set_layout = 4 ∷ 4 ∷ 1 ∷ 1 ∷ 1 ∷ 1 ∷ []

abbrev pub rgb_led_set_values : RgbLedSetPayload → List ℕ
rgb_led_set_values p = p.timestamp_sec ∷ p.timestamp_nsec ∷ p.red ∷ p.green ∷ p.blue ∷ p.mode ∷ []

unfoldable pub rgb_led_set_to_bytes : RgbLedSetPayload → List ℕ
rgb_led_set_to_bytes p = pack rgb_led_set_layout (rgb_led_set_values p)

-- Every field is in the range of its type.
abbrev pub RgbLedSetPayloadFits : RgbLedSetPayload → Type 0
RgbLedSetPayloadFits p =
    (p.timestamp_sec < 2 ^ 32)
    × (p.timestamp_nsec < 2 ^ 32)
    × (p.red < 2 ^ 8)
    × (p.green < 2 ^ 8)
    × (p.blue < 2 ^ 8)
    × (p.mode < 2 ^ 8)

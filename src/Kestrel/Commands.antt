-- ===== src/Kestrel/Commands.antt =====
-- The commands of kestrel_transport.cpp. `wall` is the reading of the system clock in nanoseconds
-- since its epoch, `clock` and the fuel are those of `wait_for_ack`, and `none` is fuel that ran out.
-- Logging is left out.
pub mod Sent
pub mod Answered
pub mod Written
use my_diffbot.Common.{
  ℕ, ◌*◌, ◌/◌, ◌%◌, ◌^◌, List, Bool, true, false, not, Option, none, some, u32, if◌then◌else◌,
}
use my_diffbot.Common.Int.{ℤ, pos, negsuc}
use my_diffbot.Double.{Double}
use my_diffbot.Protocol.MsgId
use my_diffbot.Protocol.AckStatus
use my_diffbot.Protocol.AckStatus.{AckStatus}
use my_diffbot.Protocol.Payload.Sent.{
  protocol_version, HandshakePayload, handshake_to_bytes, WheelVelocityPayload,
  wheel_velocity_to_bytes, SetPidGainsPayload, set_pid_gains_to_bytes, SetCommandTimeoutPayload,
  set_command_timeout_to_bytes, TimestampPayload, timestamp_to_bytes, RgbLedSetPayload,
  rgb_led_set_to_bytes,
}
use my_diffbot.Transport.Serial.{SerialPort, Hook}
use my_diffbot.Transport.{Transport}
use my_diffbot.Transport.Session.{write_command}
use my_diffbot.Transport.Ack.{wait_for_ack}

abbrev pub timestamp_sec : ℕ → ℕ
timestamp_sec wall = u32 (wall / 1_000_000_000)

abbrev pub timestamp_nsec : ℕ → ℕ
timestamp_nsec wall = u32 (wall % 1_000_000_000)

-- The default of `WaitForAck`.
abbrev pub default_timeout_ms : ℕ
default_timeout_ms = 3000

-- `static_cast<int32_t>(rad_s * 1000.0 / (2.0 * M_PI))`, for a result in range.
abbrev pub to_mrps : (D : Double) → D.F → ℤ
to_mrps D rad_s = D.trunc (D.div (D.mul rad_s (D.literal 1000 0)) (D.mul (D.literal 2 0) D.m_pi))

module _ (wall : ℕ) where
  abbrev pub handshake_payload : HandshakePayload
  handshake_payload = record {
    timestamp_sec = timestamp_sec wall;
    timestamp_nsec = timestamp_nsec wall;
    protocol_ver = protocol_version;
  }

  abbrev pub set_pid_gains_payload : ℤ → ℤ → ℤ → ℤ → ℤ → ℤ → SetPidGainsPayload
  set_pid_gains_payload kp_l ki_l kd_l kp_r ki_r kd_r = record {
    timestamp_sec = timestamp_sec wall;
    timestamp_nsec = timestamp_nsec wall;
    kp_left = kp_l;
    ki_left = ki_l;
    kd_left = kd_l;
    kp_right = kp_r;
    ki_right = ki_r;
    kd_right = kd_r;
  }

  abbrev pub set_command_timeout_payload : ℕ → SetCommandTimeoutPayload
  set_command_timeout_payload timeout_ms = record {
    timestamp_sec = timestamp_sec wall;
    timestamp_nsec = timestamp_nsec wall;
    timeout_ms = timeout_ms;
  }

  abbrev pub timestamp_payload : TimestampPayload
  timestamp_payload = record {
    timestamp_sec = timestamp_sec wall;
    timestamp_nsec = timestamp_nsec wall;
  }

  abbrev pub wheel_velocity_payload : (D : Double) → D.F → D.F → WheelVelocityPayload
  wheel_velocity_payload D left_rad_s right_rad_s = record {
    timestamp_sec = timestamp_sec wall;
    timestamp_nsec = timestamp_nsec wall;
    left_wheel_mrps = to_mrps D left_rad_s;
    right_wheel_mrps = to_mrps D right_rad_s;
  }

  abbrev pub rgb_led_set_payload : ℕ → ℕ → ℕ → ℕ → RgbLedSetPayload
  rgb_led_set_payload red green blue mode = record {
    timestamp_sec = timestamp_sec wall;
    timestamp_nsec = timestamp_nsec wall;
    red = red;
    green = green;
    blue = blue;
    mode = mode;
  }

module _ (S : SerialPort) {H : Type 0} where
  open S use {Device}

  -- A command without an ACK.
  abbrev pub send : ℕ → List ℕ → Transport Device H → AckStatus × Transport Device H
  send msg_id payload t =
      let (sent, t') = write_command S msg_id payload t in
      if not sent then (AckStatus.command_failed, t') else (AckStatus.ok, t')

  unfoldable pub set_wheel_velocity :
      ℕ → (D : Double) → D.F → D.F → Transport Device H → AckStatus × Transport Device H
  set_wheel_velocity wall D left_rad_s right_rad_s t =
      send MsgId.wheel_velocity
        (wheel_velocity_to_bytes (wheel_velocity_payload wall D left_rad_s right_rad_s)) t

  unfoldable pub set_rgb_led :
      ℕ → ℕ → ℕ → ℕ → ℕ → Transport Device H → AckStatus × Transport Device H
  set_rgb_led wall red green blue mode t =
      send MsgId.rgb_led_set (rgb_led_set_to_bytes (rgb_led_set_payload wall red green blue mode)) t

module _ (S : SerialPort) {H : Type 0} (on_message : Hook H) (clock : ℕ → ℕ) (fuel wall : ℕ) where
  open S use {Device}

  -- A command that waits for its ACK.
  unfoldable pub request :
      ℕ → List ℕ → ℕ → Transport Device H → Option (AckStatus × Transport Device H)
  request msg_id payload ack_timeout_ms t =
      let (sent, t') = write_command S msg_id payload t in
      if not sent
      then some (AckStatus.command_failed, t')
      else wait_for_ack S on_message clock fuel msg_id ack_timeout_ms t'

  abbrev pub send_timestamp_command :
      ℕ → Transport Device H → Option (AckStatus × Transport Device H)
  send_timestamp_command msg_id t =
      request msg_id (timestamp_to_bytes (timestamp_payload wall)) default_timeout_ms t

  abbrev pub handshake : Transport Device H → Option (AckStatus × Transport Device H)
  handshake t =
      request MsgId.handshake (handshake_to_bytes (handshake_payload wall)) default_timeout_ms t

  abbrev pub set_pid_gains :
      ℤ → ℤ → ℤ → ℤ → ℤ → ℤ → ℕ → Transport Device H → Option (AckStatus × Transport Device H)
  set_pid_gains kp_l ki_l kd_l kp_r ki_r kd_r ack_timeout_ms t =
      request MsgId.set_pid_gains
        (set_pid_gains_to_bytes (set_pid_gains_payload wall kp_l ki_l kd_l kp_r ki_r kd_r))
        ack_timeout_ms t

  abbrev pub set_command_timeout :
      ℕ → ℕ → Transport Device H → Option (AckStatus × Transport Device H)
  set_command_timeout timeout_ms ack_timeout_ms t =
      request MsgId.set_cmd_timeout
        (set_command_timeout_to_bytes (set_command_timeout_payload wall timeout_ms)) ack_timeout_ms
        t

  abbrev pub deactivate : Transport Device H → Option (AckStatus × Transport Device H)
  deactivate t = send_timestamp_command MsgId.deactivate t

  -- `Kestrel::Reset` without arguments, which hides `SerialTransport::Reset`.
  abbrev pub reset : Transport Device H → Option (AckStatus × Transport Device H)
  reset t = send_timestamp_command MsgId.reset t

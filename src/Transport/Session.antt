-- ===== src/Transport/Session.antt =====
-- `Configure`, `Connect`, `Reset`, `Shutdown`, `WriteCommand` and `IsHeartbeatHealthy` of
-- `SerialTransport`. A `try` block ends at the first call that throws; logging is left out, and with
-- it `OnConfigure`, which only names the logger, and `OnReset`, which nobody overrides.
pub mod Opening
pub mod Closing
use my_diffbot.Common.{
  ℕ, ◌+◌, ◌-◌, ◌*◌, ◌/◌, List, [], ◌∷◌, Bool, true, false, not, if◌then◌else◌, ◌==◌, leb, length,
}
use my_diffbot.Protocol.Frame.{build_frame}
use my_diffbot.Transport.Serial.{SerialPort}
use my_diffbot.Transport.{Link, Transport, convert_baud_rate}

module _ {D H : Type 0} where
  unfoldable pub configure : List ℕ → ℕ → ℕ → Transport D H → Transport D H
  configure port baud_rate read_timeout_ms t = if length port == 0 then t else record t {
    port = port;
    baud_rate = baud_rate;
    read_timeout_ms = read_timeout_ms;
    configured = true;
  }

  unfoldable pub reset : Transport D H → Transport D H
  reset t = record t {
    rx_buffer = [];
    link = record t.link { received_message_count = 0; crc_error_count = 0 };
  }

  -- Times are in nanoseconds, the maximal age in milliseconds; the age is cut to whole milliseconds.
  unfoldable pub is_heartbeat_healthy : ℕ → ℕ → Transport D H → Bool
  is_heartbeat_healthy now max_age_ms t =
      if t.last_heartbeat_time == 0
      then false
      else leb ((now - t.last_heartbeat_time) / 1_000_000) max_age_ms

module _ (S : SerialPort) {H : Type 0} where
  open S use {Device, is_open, open_port, set_baud_rate, flush_io_buffers, close_port, write_bytes}

  -- The `try` block of `Connect`, from `Open` on.
  pub open_device : Transport Device H → Bool × Transport Device H
  open_device t =
      let (opened, d1) = open_port t.port t.device in
      let (rated, d2) = set_baud_rate (convert_baud_rate t.baud_rate) d1 in
      let (flushed, d3) = flush_io_buffers d2 in
      if not opened
      then (false, record t { device = d1 })
      else if not rated
      then (false, record t { device = d2 })
      else if not flushed
      then (false, record t { device = d3 })
      else (is_open d3, record t { device = d3 })

  unfoldable pub connect : Transport Device H → Bool × Transport Device H
  unfolding open_device
  connect t =
      if not t.configured then (false, t) else if is_open t.device then (true, t) else open_device t

  unfoldable pub shutdown : Transport Device H → Transport Device H
  unfolding reset
  shutdown t =
      let cleared = reset t in
      if is_open cleared.device
      then record cleared { device = close_port cleared.device }
      else cleared

  unfoldable pub write_command : ℕ → List ℕ → Transport Device H → Bool × Transport Device H
  write_command msg_id payload t =
      if not (is_open t.device)
      then (false, t)
      else (let (written, device) = write_bytes (build_frame msg_id payload) t.device in
          (written, record t { device = device }))

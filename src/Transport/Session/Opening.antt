-- ===== src/Transport/Session/Opening.antt =====
-- `Connect` of serial_transport.cpp.
use my_diffbot.Common.{◌≡◌, ◌⊎◌, arith, true, false}
use my_diffbot.Transport.Serial.{SerialPort}
use my_diffbot.Transport.{Transport, convert_baud_rate}
use my_diffbot.Transport.Session.{connect}

module _ (S : SerialPort) {H : Type 0} where
  open S use {Device, is_open, open_port, set_baud_rate, flush_io_buffers, close_port, write_bytes}

  -- `connect` reports failure, or it was configured before and the port is now open; in both cases it
  -- changes nothing but the device.
  pub connect-true :
      (t : Transport Device H)
      → (((connect S t).0 ≡ false)
          ⊎ ((t.configured ≡ true) × (is_open (connect S t).1.device ≡ true)))
        × ((connect S t).1 ≡ record t { device = (connect S t).1.device })
  unfolding connect
  connect-true t = ground arith

  -- If the port opens and its baud rate is refused, `connect` fails with the port left open, and the
  -- next call succeeds at once: the baud rate is not set and nothing is flushed.
  pub connect_retry :
      (t : Transport Device H) (d1 d2 : Device)
      → t.configured ≡ true
      → is_open t.device ≡ false
      → open_port t.port t.device ≡ (true, d1)
      → set_baud_rate (convert_baud_rate t.baud_rate) d1 ≡ (false, d2)
      → is_open d2 ≡ true
      → let u : Transport Device H = record t { device = d2 } in
        (connect S t ≡ (false, u)) × (connect S u ≡ (true, u))
  unfolding connect
  connect_retry t d1 d2 ready closed opened refused still_open =
      (rw (ready, closed, opened, refused), rw (ready, still_open))

-- ===== src/Kestrel/Feedback/Sensed.antt =====
-- From an IMU frame of the firmware to the snapshot of the driver.
use my_diffbot.Common.{ℕ, ◌+◌, ◌≡◌, refl, sym, ap, ◌∙◌, arith, [], append-nil, some, u64}
use my_diffbot.Double.{Double}
use my_diffbot.Protocol.MsgId
use my_diffbot.Protocol.Frame.{build_frame}
use my_diffbot.Protocol.Payload.Received.{
  ImuDataPayload, ImuDataPayloadFits, imu_data_to_bytes, imu_data_of_bytes,
}
use my_diffbot.Protocol.Payload.RoundTrip.{length-imu_data_to_bytes, imu_data_of_bytes-to_bytes}
use my_diffbot.Transport.Serial.{Shared, SerialPort}
use my_diffbot.Transport.{Transport, dispatch}
use my_diffbot.Transport.Read.{read}
use my_diffbot.Transport.Read.Frames.{shared-dispatch}
use my_diffbot.Transport.Read.Received.{DeliversBytes, arrived, device_after}
use my_diffbot.Transport.Read.One.{read_one}
use my_diffbot.Kestrel.{Kestrel, ImuSnapshot, on_imu_data, on_message_received}

module _ (D : Double) where
  open D use {F, literal, of_int, mul, div, m_pi}

  -- What the snapshot is to show: hundredths of a metre per second squared, sixteenths of a degree
  -- per second in radians, and a quaternion in parts of 2 ^ 14.
  abbrev pub sensed : ℕ → ImuDataPayload → ImuSnapshot F
  sensed count p =
      let acc = div (literal 1 0) (literal 100 0) in
      let gyro = div (mul (div (literal 1 0) (literal 16 0)) m_pi) (literal 180 0) in
      let quat = div (literal 1 0) (literal 16384 0) in
      record {
        count = count;
        lin_acc = record {
          x = mul (of_int p.lin_ax) acc;
          y = mul (of_int p.lin_ay) acc;
          z = mul (of_int p.lin_az) acc;
        };
        ang_vel = record {
          x = mul (of_int p.ang_vx) gyro;
          y = mul (of_int p.ang_vy) gyro;
          z = mul (of_int p.ang_vz) gyro;
        };
        quat = record {
          w = mul (of_int p.quat_w) quat;
          x = mul (of_int p.quat_x) quat;
          y = mul (of_int p.quat_y) quat;
          z = mul (of_int p.quat_z) quat;
        };
        cal = record { sys = p.cal_sys; gyro = p.cal_gyro; acc = p.cal_acc; mag = p.cal_mag };
        temp_c = p.temp_c;
      }

  received_imu_data :
      (now : ℕ) (p : ImuDataPayload) (s : Shared (Kestrel F))
      → ImuDataPayloadFits p
      → on_message_received D now MsgId.imu_data (imu_data_to_bytes p) s
        ≡ record s { state = on_imu_data D p s.state }
  unfolding on_message_received
  received_imu_data now p s h = rw (
    length-imu_data_to_bytes p,
    sym (ap imu_data_of_bytes (append-nil (imu_data_to_bytes p)))
        ∙ imu_data_of_bytes-to_bytes p [] h,
  )

module _ (S : SerialPort) (D : Double) where
  open S use {Device}
  open D use {F}

  -- An IMU frame with fields in range that arrives at an empty buffer is what the snapshot then
  -- shows, with a count that is one higher. Nothing stays in the buffer.
  pub read-sensed :
      (now : ℕ) (p : ImuDataPayload) (t : Transport Device (Kestrel F))
      → DeliversBytes S
      → ImuDataPayloadFits p
      → t.rx_buffer ≡ []
      → arrived S t ≡ build_frame MsgId.imu_data (imu_data_to_bytes p)
      → (u : Transport Device (Kestrel F)) × (read S (on_message_received D) now t ≡ some u)
        × (u.rx_buffer ≡ [])
        × (u.state.imu ≡ sensed D (u64 (t.state.imu.count + 1)) p)
  unfolding on_imu_data
  read-sensed now p t delivers h empty came =
      let payload = imu_data_to_bytes p in
      let seen =
        shared-dispatch (on_message_received D) now MsgId.imu_data payload t.link
        ∙ received_imu_data D now p t.shared h in
      (
        record t {
          device = device_after S t;
          rx_buffer = [];
          link = dispatch (on_message_received D) now MsgId.imu_data payload t.link;
        },
        read_one S (on_message_received D) now MsgId.imu_data payload t delivers empty
            (omega (arith, length-imu_data_to_bytes p)) came,
        refl,
        ap (λ (s : Shared (Kestrel F)). s.state.imu) seen,
      )

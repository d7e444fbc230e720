-- ===== src/Tests/Protocol.antt =====
-- Frames and checksums.
use my_diffbot.Common.{
  ℕ, true, none, some, ◌+◌, ◌*◌, ◌%◌, ◌^◌, ◌<◌, ◌≤◌, ◌≡◌, ◌≢◌, ◌⊎◌, refl, arith, List, [], ◌∷◌,
  ◌++◌, length, drop,
}
use my_diffbot.Common.Int.{pos, negsuc, ltb_ℤ}
use my_diffbot.Protocol.Crc.{crc_bit, crc_bits, crc_byte, crc_bytes, crc16_ccitt}
use my_diffbot.Protocol.Crc.Detect.{crc16_ccitt_distinct}
use my_diffbot.Protocol.Frame.{
  build_frame, find_start, recv_crc, check_frame, read_frame, extract_frame, ok, incomplete,
  crc_mismatch, no_start_byte,
}
use my_diffbot.Protocol.Frame.RoundTrip.{
  extract_frame-build_frame, extract_frame_sound, extract_frame-buffer-lt,
}
use my_diffbot.Protocol.Frame.Outcome.{IsGarbage}
use my_diffbot.Protocol.Frame.Corruption.{damaged, extract_frame-damaged}
use my_diffbot.Protocol.Stream.{Message}
use my_diffbot.Tests.Wire.{whole}
use my_diffbot.Protocol.Led.{LedOutput, is_alternate_phase, resolve_led, resolve_led_lem}
use my_diffbot.Protocol.Payload.Received.{ImuDataPayload}

-- The check value of this checksum: that of the digits 1 to 9.
crc16_ccitt_check : crc16_ccitt (49 ∷ 50 ∷ 51 ∷ 52 ∷ 53 ∷ 54 ∷ 55 ∷ 56 ∷ 57 ∷ []) 9 ≡ 0x29B1
unfolding crc16_ccitt crc_bytes crc_byte crc_bits crc_bit
crc16_ccitt_check = refl

-- A frame of two payload bytes, and what `extract_frame` makes of it behind one byte of garbage.
build_frame_check : build_frame 0x20 (7 ∷ 8 ∷ []) ≡ 0xAA ∷ 0x20 ∷ 2 ∷ 7 ∷ 8 ∷ 0x77 ∷ 0x3c ∷ []
unfolding build_frame crc16_ccitt crc_bytes crc_byte crc_bits crc_bit
build_frame_check = refl

extract_frame_check :
    extract_frame (1 ∷ (build_frame 0x20 (7 ∷ 8 ∷ []) ++ (9 ∷ []))) 0 []
    ≡ record { result = ok; buffer = 9 ∷ []; out_msg_id = 0x20; out_payload = 7 ∷ 8 ∷ [] }
unfolding extract_frame find_start read_frame check_frame recv_crc build_frame crc16_ccitt crc_bytes
    crc_byte crc_bits crc_bit
extract_frame_check = refl

extract_frame-build_frame_example :
    extract_frame ((1 ∷ []) ++ (build_frame 0x20 (7 ∷ 8 ∷ []) ++ (9 ∷ []))) 0 []
    ≡ record { result = ok; buffer = 9 ∷ []; out_msg_id = 0x20; out_payload = 7 ∷ 8 ∷ [] }
unfolding build_frame
extract_frame-build_frame_example =
    extract_frame-build_frame (1 ∷ []) 0x20 (7 ∷ 8 ∷ []) (9 ∷ []) 0 [] (omega arith, tt)
      (omega arith)

abbrev frame : List ℕ
frame = 0xAA ∷ 0x20 ∷ 2 ∷ 7 ∷ 8 ∷ 0x77 ∷ 0x3c ∷ []

abbrev buffer : List ℕ
buffer = 1 ∷ (frame ++ (9 ∷ []))

extract_frame_sound_example :
    let e = extract_frame buffer 0 [] in
    (g : List ℕ) × IsGarbage g
    × (length e.out_payload < 256)
    × (buffer ≡ g ++ (build_frame e.out_msg_id e.out_payload ++ e.buffer))
unfolding extract_frame find_start read_frame check_frame recv_crc crc16_ccitt crc_bytes crc_byte
    crc_bits crc_bit
extract_frame_sound_example = extract_frame_sound buffer 0 [] (omega arith) (omega arith) refl

extract_frame-buffer-lt_example :
    let e = extract_frame buffer 0 [] in
    (((e.result ≡ ok) ⊎ (e.result ≡ crc_mismatch)) × (length e.buffer < length buffer))
    ⊎ (((e.result ≡ incomplete) ⊎ (e.result ≡ no_start_byte)) × (length e.buffer ≤ length buffer))
extract_frame-buffer-lt_example = extract_frame-buffer-lt buffer 0 [] (omega arith) (omega arith)

-- The 8 arrives as a 9.
extract_frame-damaged_example :
    extract_frame (damaged 0x20 (7 ∷ 8 ∷ []) (7 ∷ 9 ∷ []) []) 0 [] ≡ record {
      result = crc_mismatch;
      buffer = drop 1 (damaged 0x20 (7 ∷ 8 ∷ []) (7 ∷ 9 ∷ []) []);
      out_msg_id = 0;
      out_payload = [];
    }
extract_frame-damaged_example =
    extract_frame-damaged 0x20 [] [] 7 8 7 9 [] 0 [] tt (omega arith) (omega arith) (omega arith)
      (omega arith) (λ e. absurd (omega (arith, e.1))) (omega arith)

crc16_ccitt_distinct_example :
    crc16_ccitt ((5 ∷ []) ++ (7 ∷ 8 ∷ (6 ∷ []))) 4 ≢ crc16_ccitt ((5 ∷ []) ++ (7 ∷ 9 ∷ (6 ∷ []))) 4
crc16_ccitt_distinct_example =
    crc16_ccitt_distinct (5 ∷ []) (6 ∷ []) 7 8 7 9 4 (omega arith) (omega arith) (omega arith)
      (omega arith) (omega arith) refl (λ e. absurd (omega (arith, e.1)))

abbrev two_messages : List Message
two_messages = (0x20, 7 ∷ 8 ∷ []) ∷ (0x10, 9 ∷ []) ∷ []

abbrev pub at_rest : ImuDataPayload
at_rest = record {
  timestamp_sec = 12;
  timestamp_nsec = 0;
  lin_ax = pos 0;
  lin_ay = negsuc 4;
  lin_az = pos 981;
  ang_vx = negsuc 0;
  ang_vy = pos 0;
  ang_vz = pos 1;
  quat_w = pos 16384;
  quat_x = pos 0;
  quat_y = pos 0;
  quat_z = negsuc 2;
  cal_sys = 3;
  cal_acc = 1;
  cal_gyro = 2;
  cal_mag = 0;
  temp_c = negsuc 9;
}

-- Alternating with a period of 500 ms, three seconds after the start: the seventh phase.
resolve_led_check :
    resolve_led whole (pos 3) 0x112233 0x445566 (pos 500) (pos 3)
    ≡ some (record { r = 0x11; g = 0x22; b = 0x33; fw_mode = 1 })
unfolding resolve_led is_alternate_phase
resolve_led_check = refl

resolve_led_lem_example :
    let out = resolve_led whole (pos 2) 0x112233 0x445566 (pos 1000) (pos 3) in
    (((ltb_ℤ (pos 2) (pos 0) ≡ true) ⊎ (ltb_ℤ (pos 3) (pos 2) ≡ true)) × (out ≡ none))
    ⊎ ((pos 2 ≡ pos 0) × (out ≡ some (record { r = 0; g = 0; b = 0; fw_mode = 0 })))
    ⊎ ((o : LedOutput) × (shown : ℕ) × (out ≡ some o)
        × (o.fw_mode ≡ 1)
        × (o.g < 256)
        × (o.b < 256)
        × (o.r * 65536 + o.g * 256 + o.b ≡ shown % 2 ^ 24)
        × (((pos 2 ≡ pos 1) × (shown ≡ 0x112233))
            ⊎ ((pos 2 ≡ pos 2) × (shown ≡ 0))
            ⊎ ((pos 2 ≡ pos 3) × (shown ≡ 0x445566))))
resolve_led_lem_example = resolve_led_lem whole (pos 2) 0x112233 0x445566 (pos 1000) (pos 3)

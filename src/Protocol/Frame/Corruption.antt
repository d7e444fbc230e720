-- ===== src/Protocol/Frame/Corruption.antt =====
-- `ExtractFrame` of binary_protocol.cpp on a frame whose payload was damaged on the way.
use my_diffbot.Common.{
  ℕ, ◌+◌, ◌/◌, ◌%◌, ◌≤◌, ◌<◌, ◌≡◌, ◌≢◌, sym, arith, List, ◌∷◌, ◌++◌, length, length-append, drop,
  IsBytes,
}
use my_diffbot.Protocol.Crc.Linear.{crc16_ccitt-lt}
use my_diffbot.Protocol.Crc.Detect.{crc16_ccitt_burst}
use my_diffbot.Protocol.Frame.{
  start_byte, k_max_rx_buffer_bytes, build_frame, crc_mismatch, extract_frame,
}
use my_diffbot.Protocol.Frame.Cases.{wire, frame_crc, extract_frame-wire}
use my_diffbot.Protocol.Frame.Shape.{kept_all, build_frame-wire}

-- What arrives where the payload of a frame was changed on the way: the checksum is still that of
-- the payload sent.
abbrev pub damaged : ℕ → List ℕ → List ℕ → List ℕ → List ℕ
damaged msg_id sent received rest =
    wire msg_id received (frame_crc msg_id sent % 256) (frame_crc msg_id sent / 256) rest

-- With nothing changed that is the frame.
pub damaged_same :
    (msg_id : ℕ) (payload rest : List ℕ)
    → length payload < 256
    → damaged msg_id payload payload rest ≡ build_frame msg_id payload ++ rest
damaged_same msg_id payload rest h =
    sym (rw (kept_all payload h) at (build_frame-wire msg_id payload rest))

module _ (msg_id : ℕ) (before after : List ℕ) (a b c d : ℕ) where
  abbrev sent : List ℕ
  sent = before ++ (a ∷ b ∷ after)

  abbrev received : List ℕ
  received = before ++ (c ∷ d ∷ after)

  same_length : length received ≡ length sent
  same_length =
      omega (arith, length-append before (a ∷ b ∷ after), length-append before (c ∷ d ∷ after))

  frame_crc-damaged :
      IsBytes after
      → a < 256
      → b < 256
      → c < 256
      → d < 256
      → frame_crc msg_id received ≡ frame_crc msg_id sent
      → (a ≡ c) × (b ≡ d)
  frame_crc-damaged h ha hb hc hd e =
      let header = start_byte ∷ msg_id ∷ length sent ∷ before in
      let e' = rw same_length at e in
      crc16_ccitt_burst header after a b c d (3 + length sent) h ha hb hc hd
        (omega (arith, length-append before (a ∷ b ∷ after))) (sym e')

  -- If two neighbouring bytes of the payload, or one of them, arrive changed, and the buffer is
  -- within the limit, the frame is reported as corrupt, only its start byte is dropped, and the
  -- outputs are not written.
  pub extract_frame-damaged :
      (rest : List ℕ) (msg_id0 : ℕ) (payload0 : List ℕ)
      → IsBytes after
      → a < 256
      → b < 256
      → c < 256
      → d < 256
      → ¬ ((a ≡ c) × (b ≡ d))
      → length (damaged msg_id sent received rest) ≤ k_max_rx_buffer_bytes
      → extract_frame (damaged msg_id sent received rest) msg_id0 payload0 ≡ record {
        result = crc_mismatch;
        buffer = drop 1 (damaged msg_id sent received rest);
        out_msg_id = msg_id0;
        out_payload = payload0;
      }
  extract_frame-damaged rest m p h ha hb hc hd differ fits =
      let crc = frame_crc msg_id sent in
      let crc-lt : crc < 65536 = crc16_ccitt-lt _ (3 + length sent) in
      let wrong : frame_crc msg_id received ≢ crc =
        λ e. differ (frame_crc-damaged h ha hb hc hd e) in
      let read =
        extract_frame-wire m p msg_id received (crc % 256) (crc / 256) rest (omega arith)
          (omega arith) fits in
      ground (arith, read)

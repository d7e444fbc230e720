-- ===== src/Transport/Read.antt =====
-- `SerialTransport::Read` and `ExtractFrames`. The loops take fuel, and `none` is fuel that ran
-- out.
pub mod Frames
pub mod Chunks
pub mod Received
pub mod One
use my_diffbot.Common.{
  ℕ, zero, suc, ◌+◌, ◌-◌, List, [], ◌∷◌, ◌++◌, Bool, true, false, Option, none, some, ◌==◌, ltb,
  if◌then◌else◌, length, take, drop, min,
}
use my_diffbot.Protocol.Frame.{
  Extraction, extract_frame, ExtractResult, ok, incomplete, crc_mismatch, no_start_byte, overflow,
}
use my_diffbot.Transport.Serial.{SerialPort, Shared, Hook}
use my_diffbot.Transport.{Link, Transport, dispatch, count_crc_error}

infixl 5 ◌>>=◌
abbrev pub ◌>>=◌ : {A B : Type 0} → Option A → (A → Option B) → Option B
none >>= f = none
some a >>= f = f a

abbrev pub k_chunk_bytes : ℕ
k_chunk_bytes = 256

module _ {D H : Type 0} (on_message : Hook H) (now : ℕ) where
  -- The body of `while (true)` in `ExtractFrames`, after the call of `extract_frame`; `again` is
  -- the loop from its start.
  pub after_scan :
      (Transport D H → Option (Transport D H)) → Transport D H → Extraction → Option (Transport D H)
  after_scan again t e =
      let scanned : Transport D H = record t { rx_buffer = e.buffer } in
      elim e.result [
        | ok ↦
            again
              (record scanned { link = dispatch on_message now e.out_msg_id e.out_payload t.link })
        | crc_mismatch ↦ again (record scanned { link = count_crc_error t.link })
        | overflow ↦ some scanned
        | incomplete ↦ some scanned
        | no_start_byte ↦ some scanned
      ]

  pub extract_loop : ℕ → Transport D H → Option (Transport D H)
  unfolding after_scan
  extract_loop zero t = none
  extract_loop (suc fuel) t = after_scan (extract_loop fuel) t (extract_frame t.rx_buffer 0 [])

  unfoldable pub extract_frames : Transport D H → Option (Transport D H)
  unfolding extract_loop
  extract_frames t = extract_loop (suc (length t.rx_buffer)) t

  -- The `for` loop of `Read`, from an offset on.
  pub feed : ℕ → ℕ → List ℕ → Transport D H → Option (Transport D H)
  unfolding extract_frames
  feed zero offset raw t = none
  feed (suc fuel) offset raw t =
      let end = min (length raw) (offset + k_chunk_bytes) in
      let chunk = take (end - offset) (drop offset raw) in
      let rest = (do
        t' ← extract_frames (record t { rx_buffer = t.rx_buffer ++ chunk })
        feed fuel (offset + k_chunk_bytes) raw t') in
      if ltb offset (length raw) then rest else some t

module _ {D H : Type 0} (on_message : Hook H) (now : ℕ) where
  -- `Read` from the call of `serial_dev_.Read` on; `none` is an exception, or nothing to read.
  pub receive : Option (List ℕ) → Transport D H → Option (Transport D H)
  receive none t = some t
  receive (some raw) t =
      if length raw == 0 then some t else feed on_message now (suc (length raw)) 0 raw t

module _ (S : SerialPort) {H : Type 0} where
  open S use {Device, is_open, bytes_available, read_bytes}

  -- What arrived, unless there was nothing or an exception.
  unfoldable pub read_raw : Transport Device H → Option (List ℕ) × Device
  read_raw t =
      let (available, device) = bytes_available t.device in
      elim available [
        | none ↦ (none, device)
        | some n ↦ if n == 0 then (none, device) else read_bytes n t.read_timeout_ms device
      ]

  unfoldable pub read : Hook H → ℕ → Transport Device H → Option (Transport Device H)
  unfolding read_raw receive feed
  read on_message now t =
      if is_open t.device
      then (let (raw, device) = read_raw t in
          receive on_message now raw (record t { device = device }))
      else some t

-- ===== src/Protocol/Frame.antt =====
-- `BuildFrame` and `ExtractFrame` of binary_protocol.cpp. The references that `ExtractFrame`
-- writes to are the fields of its result; a vector is a list of bytes.
pub mod Cases
pub mod Shape
pub mod Outcome
pub mod RoundTrip
pub mod Corruption
use my_diffbot.Common.{
  ℕ, zero, suc, ◌+◌, ◌^◌, ◌%◌, bit_and, bit_or, List, [], ◌∷◌, ◌++◌, not, u8, u16, ◌<<<◌, ◌>>>◌,
  ◌==◌, ltb, if◌then◌else◌, length, take, drop, get_or,
}
use my_diffbot.Protocol.Crc.{crc16_ccitt}

abbrev pub start_byte : ℕ
start_byte = 0xAA

abbrev pub k_max_rx_buffer_bytes : ℕ
k_max_rx_buffer_bytes = 1024

unfoldable pub build_frame : ℕ → List ℕ → List ℕ
build_frame msg_id payload =
    let payload_len = u8 (length payload) in
    let covered = start_byte ∷ msg_id ∷ payload_len ∷ take payload_len payload in
    let crc = crc16_ccitt covered (3 + payload_len) in
    covered ++ (u8 (bit_and crc 0xFF) ∷ u8 (bit_and (crc >>> 8) 0xFF) ∷ [])

pub data ExtractResult : Type 0 where
  ok incomplete crc_mismatch no_start_byte overflow : ExtractResult

pub record Extraction : Type 0 where
  pub result : ExtractResult
  pub buffer : List ℕ
  pub out_msg_id : ℕ
  pub out_payload : List ℕ

-- The index of the first start byte, or the size of the buffer.
unfoldable pub find_start : List ℕ → ℕ
find_start [] = 0
find_start (b ∷ rest) = if b == start_byte then 0 else suc (find_start rest)

-- The two bytes behind the payload, low byte first.
unfoldable pub recv_crc : List ℕ → ℕ → ℕ
recv_crc buffer payload_len = u16 (
    bit_or (u16 (get_or buffer (3 + payload_len) 0))
      (u16 (get_or buffer (4 + payload_len) 0) <<< 8))

-- From the checksum on, with a whole frame in the buffer.
unfoldable pub check_frame : List ℕ → ℕ → ℕ → List ℕ → Extraction
unfolding recv_crc
check_frame buffer payload_len out_msg_id out_payload =
    if not (crc16_ccitt buffer (3 + payload_len) == recv_crc buffer payload_len)
    then record {
      result = crc_mismatch;
      buffer = drop 1 buffer;
      out_msg_id = out_msg_id;
      out_payload = out_payload;
    }
    else record {
      result = ok;
      buffer = drop (5 + payload_len) buffer;
      out_msg_id = get_or buffer 1 0;
      out_payload = take payload_len (drop 3 buffer);
    }

-- From the end of the scan on: the buffer is empty or begins with the start byte.
unfoldable pub read_frame : List ℕ → ℕ → List ℕ → Extraction
unfolding check_frame
read_frame buffer out_msg_id out_payload =
    if length buffer == 0
    then unchanged no_start_byte
    else if ltb (length buffer) 3
    then unchanged incomplete
    else if ltb (length buffer) (5 + get_or buffer 2 0)
    then unchanged incomplete
    else check_frame buffer (get_or buffer 2 0) out_msg_id out_payload
  where
    unchanged : ExtractResult → Extraction
    unchanged r = record {
      result = r;
      buffer = buffer;
      out_msg_id = out_msg_id;
      out_payload = out_payload;
    }

unfoldable pub extract_frame : List ℕ → ℕ → List ℕ → Extraction
unfolding find_start read_frame
extract_frame buffer out_msg_id out_payload =
    if ltb k_max_rx_buffer_bytes (length buffer)
    then record {
      result = overflow;
      buffer = [];
      out_msg_id = out_msg_id;
      out_payload = out_payload;
    }
    else read_frame (drop (find_start buffer) buffer) out_msg_id out_payload

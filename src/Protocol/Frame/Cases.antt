-- ===== src/Protocol/Frame/Cases.antt =====
-- `ExtractFrame` of binary_protocol.cpp on each kind of buffer: one that begins with garbage, an
-- unfinished frame, a valid frame and a corrupt one.
use my_diffbot.Common.{
  ℕ, ◌+◌, ◌*◌, ◌%◌, ◌^◌, ◌≤◌, ◌<◌, ◌≡◌, ◌≢◌, refl, sym, ap, ◌∙◌, arith, List, [], ◌∷◌, ◌++◌,
  append_assoc, ◌==◌, length, take, drop, length-append, take-append_exact, drop-append_exact,
  get_or-append_right, if◌then◌else◌,
}
use my_diffbot.Common.Bits.{bit_or-fields}
use my_diffbot.Protocol.Crc.{crc16_ccitt}
use my_diffbot.Protocol.Crc.Linear.{crc16_ccitt-append}
use my_diffbot.Protocol.Frame.{
  start_byte, k_max_rx_buffer_bytes, ExtractResult, Extraction, ok, incomplete, crc_mismatch,
  no_start_byte, find_start, recv_crc, check_frame, read_frame, extract_frame,
}

-- A buffer that waits for more bytes: empty, or the beginning of a frame.
abbrev pub IsPending : List ℕ → Type 0
IsPending [] = Unit {0}
IsPending (b ∷ []) = b ≡ start_byte
IsPending (b ∷ msg_id ∷ []) = b ≡ start_byte
IsPending (b ∷ msg_id ∷ len ∷ rest) = (b ≡ start_byte) × (length rest < len + 2)

-- A complete frame and what follows it: the header, the payload and two bytes of checksum.
abbrev pub wire : ℕ → List ℕ → ℕ → ℕ → List ℕ → List ℕ
wire msg_id payload lo hi rest =
    start_byte ∷ msg_id ∷ length payload ∷ (payload ++ (lo ∷ hi ∷ rest))

-- The checksum that a frame should have.
abbrev pub frame_crc : ℕ → List ℕ → ℕ
frame_crc msg_id payload =
    crc16_ccitt (start_byte ∷ msg_id ∷ length payload ∷ payload) (3 + length payload)

module _ (msg_id : ℕ) (payload : List ℕ) (lo hi : ℕ) (rest : List ℕ) where
  abbrev buffer : List ℕ
  buffer = wire msg_id payload lo hi rest

  abbrev covered : List ℕ
  covered = start_byte ∷ msg_id ∷ length payload ∷ payload

  length-wire : length buffer ≡ 5 + length payload + length rest
  length-wire = omega (arith, length-append payload (lo ∷ hi ∷ rest))

  crc-wire : crc16_ccitt buffer (3 + length payload) ≡ frame_crc msg_id payload
  crc-wire = crc16_ccitt-append covered (lo ∷ hi ∷ rest) (3 + length payload) (omega arith)

  recv_crc-wire : lo < 256 → hi < 256 → recv_crc buffer (length payload) ≡ lo + 256 * hi
  unfolding recv_crc
  recv_crc-wire hl hh =
      rw
        (
          get_or-append_right (3 + length payload) 0 covered (lo ∷ hi ∷ rest) 0 (omega arith),
          get_or-append_right (4 + length payload) 1 covered (lo ∷ hi ∷ rest) 0 (omega arith),
        )
        (omega (arith, bit_or-fields 8 (lo % 2 ^ 16) (hi % 2 ^ 16) (omega arith)))

  drop-wire : drop (5 + length payload) buffer ≡ rest
  drop-wire =
      ap (drop (5 + length payload)) (sym (append_assoc covered (lo ∷ hi ∷ []) rest))
      ∙ drop-append_exact (5 + length payload) (covered ++ (lo ∷ hi ∷ [])) rest
          (omega (arith, length-append payload (lo ∷ hi ∷ [])))

  take-wire : take (length payload) (drop 3 buffer) ≡ payload
  take-wire = take-append_exact (length payload) payload (lo ∷ hi ∷ rest) refl

module _ (msg_id0 : ℕ) (payload0 : List ℕ) where
  abbrev pub left : ExtractResult → List ℕ → Extraction
  left r q = record { result = r; buffer = q; out_msg_id = msg_id0; out_payload = payload0 }

  -- Garbage is skipped.
  pub extract_frame-garbage :
      (b : ℕ) (rest : List ℕ)
      → b ≢ start_byte
      → length rest < k_max_rx_buffer_bytes
      → extract_frame (b ∷ rest) msg_id0 payload0 ≡ extract_frame rest msg_id0 payload0
  unfolding extract_frame find_start
  extract_frame-garbage b rest h fits = ground arith

  -- The result for a buffer that waits for more bytes.
  abbrev pub waiting : List ℕ → ExtractResult
  waiting [] = no_start_byte
  waiting (b ∷ q) = incomplete

  pub extract_frame-pending :
      (q : List ℕ)
      → IsPending q
      → length q ≤ k_max_rx_buffer_bytes
      → extract_frame q msg_id0 payload0 ≡ left (waiting q) q
  unfolding extract_frame find_start read_frame
  extract_frame-pending [] p fits = refl
  extract_frame-pending (b ∷ []) p fits = ground arith
  extract_frame-pending (b ∷ msg_id ∷ []) p fits = ground arith
  extract_frame-pending (b ∷ msg_id ∷ len ∷ rest) p fits = ground arith

  pub extract_frame-wire :
      (msg_id : ℕ) (payload : List ℕ) (lo hi : ℕ) (rest : List ℕ)
      → lo < 256
      → hi < 256
      → length (wire msg_id payload lo hi rest) ≤ k_max_rx_buffer_bytes
      → extract_frame (wire msg_id payload lo hi rest) msg_id0 payload0 ≡ (
          if frame_crc msg_id payload == lo + 256 * hi
          then record { result = ok; buffer = rest; out_msg_id = msg_id; out_payload = payload }
          else left crc_mismatch (msg_id ∷ length payload ∷ (payload ++ (lo ∷ hi ∷ rest))))
  unfolding extract_frame find_start read_frame check_frame
  extract_frame-wire msg_id payload lo hi rest hl hh fits = ground (
    arith,
    length-wire msg_id payload lo hi rest,
    crc-wire msg_id payload lo hi rest,
    recv_crc-wire msg_id payload lo hi rest hl hh,
    drop-wire msg_id payload lo hi rest,
    take-wire msg_id payload lo hi rest,
  )

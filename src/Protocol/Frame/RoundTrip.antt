-- ===== src/Protocol/Frame/RoundTrip.antt =====
-- `BuildFrame` and `ExtractFrame` of binary_protocol.cpp together.
use my_diffbot.Common.{
  ℕ, ◌+◌, ◌/◌, ◌%◌, ◌≤◌, ◌<◌, ◌≡◌, ◌⊎◌, inl, inr, refl, ap, ◌∙◌, subst, arith, List, [], ◌∷◌, ◌++◌,
  length, length-append, take, u8, IsBytes,
}
use my_diffbot.Protocol.Crc.Linear.{crc16_ccitt-lt}
use my_diffbot.Protocol.Frame.{
  k_max_rx_buffer_bytes, build_frame, ok, incomplete, crc_mismatch, no_start_byte, extract_frame,
}
use my_diffbot.Protocol.Frame.Cases.{wire, frame_crc, extract_frame-garbage, extract_frame-wire}
use my_diffbot.Protocol.Frame.Shape.{kept, build_frame-wire}
use my_diffbot.Protocol.Frame.Outcome.{IsGarbage, waits, found, broken, extract_frame-Outcome}

pub extract_frame_skip :
    (g q : List ℕ) (msg_id0 : ℕ) (payload0 : List ℕ)
    → IsGarbage g
    → length (g ++ q) ≤ k_max_rx_buffer_bytes
    → extract_frame (g ++ q) msg_id0 payload0 ≡ extract_frame q msg_id0 payload0
extract_frame_skip [] q m p h fits = refl
extract_frame_skip (b ∷ g) q m p (ne, h) fits =
    extract_frame-garbage m p b (g ++ q) ne (omega arith)
    ∙ extract_frame_skip g q m p h (omega arith)

-- In a buffer within the limit, a frame behind any garbage comes out as it was built, and what
-- follows it stays in the buffer. The length byte counts modulo 256, so of a payload of 256 bytes
-- or more only that many first bytes were sent.
pub extract_frame-build_frame :
    (g : List ℕ) (msg_id : ℕ) (payload rest : List ℕ) (msg_id0 : ℕ) (payload0 : List ℕ)
    → IsGarbage g
    → length (g ++ (build_frame msg_id payload ++ rest)) ≤ k_max_rx_buffer_bytes
    → extract_frame (g ++ (build_frame msg_id payload ++ rest)) msg_id0 payload0 ≡ record {
      result = ok;
      buffer = rest;
      out_msg_id = msg_id;
      out_payload = take (u8 (length payload)) payload;
    }
extract_frame-build_frame g msg_id payload rest m p h fits =
    let crc = frame_crc msg_id (kept payload) in
    let crc-lt : crc < 65536 = crc16_ccitt-lt _ (3 + length (kept payload)) in
    let tail_fits : length (build_frame msg_id payload ++ rest) ≤ k_max_rx_buffer_bytes =
      omega (arith, length-append g (build_frame msg_id payload ++ rest)) in
    let wire_fits =
      subst (λ q. length q ≤ k_max_rx_buffer_bytes) (build_frame-wire msg_id payload rest)
        tail_fits in
    let read =
      extract_frame-wire m p msg_id (kept payload) (crc % 256) (crc / 256) rest (omega arith)
        (omega arith) wire_fits in
    extract_frame_skip g (build_frame msg_id payload ++ rest) m p h fits
    ∙ rw (build_frame-wire msg_id payload rest) (ground (arith, read))

-- Whatever is returned as a frame from a buffer of bytes within the limit stood in the buffer as
-- `build_frame` writes it, behind garbage without a start byte, and exactly these bytes are
-- consumed.
pub extract_frame_sound :
    (buffer : List ℕ) (msg_id0 : ℕ) (payload0 : List ℕ)
    → length buffer ≤ k_max_rx_buffer_bytes
    → IsBytes buffer
    → (extract_frame buffer msg_id0 payload0).result ≡ ok
    → let e = extract_frame buffer msg_id0 payload0 in
      (g : List ℕ) × IsGarbage g
      × (length e.out_payload < 256)
      × (buffer ≡ g ++ (build_frame e.out_msg_id e.out_payload ++ e.buffer))
extract_frame_sound buffer m p fits h is_ok = elim (extract_frame-Outcome m p buffer fits h) [
  | waits g [] hg hq e r ↦ absurd (cc)
  | waits g (x ∷ q) hg hq e r ↦ absurd (cc)
  | found g i l rest hg hl e r ↦ rw r (g, hg, hl, e)
  | broken g i l lo hi rest hg hl hlo hhi c e r ↦ absurd (cc)
]

pub length-build_frame-ge :
    (msg_id : ℕ) (payload rest : List ℕ)
    → 5 + length rest ≤ length (build_frame msg_id payload ++ rest)
length-build_frame-ge msg_id payload rest =
    rw (build_frame-wire msg_id payload rest)
      (omega (arith, length-append (kept payload) (_ ∷ _ ∷ rest)))

-- On a buffer of bytes within the limit a call takes a frame or skips a corrupt one, and then the
-- buffer is shorter, or it waits for more bytes, and then the buffer is at most as long.
pub extract_frame-buffer-lt :
    (buffer : List ℕ) (msg_id0 : ℕ) (payload0 : List ℕ)
    → length buffer ≤ k_max_rx_buffer_bytes
    → IsBytes buffer
    → let e = extract_frame buffer msg_id0 payload0 in
      (((e.result ≡ ok) ⊎ (e.result ≡ crc_mismatch)) × (length e.buffer < length buffer))
      ⊎ (((e.result ≡ incomplete) ⊎ (e.result ≡ no_start_byte)) × (length e.buffer ≤ length buffer))
extract_frame-buffer-lt buffer m p fits h = elim (extract_frame-Outcome m p buffer fits h) [
  | waits g [] hg hq e r ↦ rw r (inr (inr refl, omega (arith)))
  | waits g (x ∷ q) hg hq e r ↦
      rw r (inr (inl refl, omega (arith, ap length e, length-append g (x ∷ q))))
  | found g i l rest hg hl e r ↦ rw r (
      inl (
        inl refl,
        omega (
          arith,
          ap length e,
          length-append g (build_frame i l ++ rest),
          length-build_frame-ge i l rest,
        ),
      ))
  | broken g i l lo hi rest hg hl hlo hhi c e r ↦
      rw r (inl (inr refl, omega (arith, ap length e, length-append g (wire i l lo hi rest))))
]

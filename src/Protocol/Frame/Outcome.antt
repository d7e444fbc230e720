-- ===== src/Protocol/Frame/Outcome.antt =====
-- One call of `ExtractFrame` of binary_protocol.cpp on a buffer of bytes within the limit.
use my_diffbot.Common.{
  ℕ, ◌+◌, ◌*◌, ◌≤◌, ◌<◌, ◌≡◌, ◌≢◌, refl, sym, ap, subst, arith, List, [], ◌∷◌, ◌++◌, length,
  IsBytes, All, ℕ_discrete,
}
use my_diffbot.Protocol.Frame.{
  start_byte, k_max_rx_buffer_bytes, build_frame, Extraction, ok, crc_mismatch, extract_frame,
}
use my_diffbot.Protocol.Frame.Cases.{
  IsPending, wire, frame_crc, left, waiting, extract_frame-garbage, extract_frame-pending,
  extract_frame-wire,
}
use my_diffbot.Protocol.Frame.Shape.{pending, garbage, complete, shape, wire-build_frame}

-- No start byte among these.
abbrev pub IsGarbage : List ℕ → Type 0
IsGarbage = All (λ b. b ≢ start_byte)

module _ (msg_id0 : ℕ) (payload0 : List ℕ) where
  pub data Outcome (buffer : List ℕ) (e : Extraction) : Type 0 where
    waits :
        (g q : List ℕ)
        → IsGarbage g
        → IsPending q
        → buffer ≡ g ++ q
        → e ≡ left msg_id0 payload0 (waiting msg_id0 payload0 q) q
        → Outcome buffer e
    found :
        (g : List ℕ) (msg_id : ℕ) (payload rest : List ℕ)
        → IsGarbage g
        → length payload < 256
        → buffer ≡ g ++ (build_frame msg_id payload ++ rest)
        → e ≡ record { result = ok; buffer = rest; out_msg_id = msg_id; out_payload = payload }
        → Outcome buffer e
    broken :
        (g : List ℕ) (msg_id : ℕ) (payload : List ℕ) (lo hi : ℕ) (rest : List ℕ)
        → IsGarbage g
        → length payload < 256
        → lo < 256
        → hi < 256
        → frame_crc msg_id payload ≢ lo + 256 * hi
        → buffer ≡ g ++ wire msg_id payload lo hi rest
        → e
          ≡ left msg_id0 payload0 crc_mismatch
              (msg_id ∷ length payload ∷ (payload ++ (lo ∷ hi ∷ rest)))
        → Outcome buffer e

  -- A garbage byte in front changes nothing.
  Outcome-cons :
      {b : ℕ} {buffer : List ℕ} {e : Extraction}
      → b ≢ start_byte
      → Outcome buffer e
      → Outcome (b ∷ buffer) e
  Outcome-cons {b} ne (waits g q hg p h r) = waits (b ∷ g) q (ne, hg) p (ap (◌∷◌ b) h) r
  Outcome-cons {b} ne (found g m p rest hg l h r) =
      found (b ∷ g) m p rest (ne, hg) l (ap (◌∷◌ b) h) r
  Outcome-cons {b} ne (broken g m p lo hi rest hg l hl hh c h r) =
      broken (b ∷ g) m p lo hi rest (ne, hg) l hl hh c (ap (◌∷◌ b) h) r

  Outcome-wire :
      (msg_id : ℕ) (payload : List ℕ) (lo hi : ℕ) (rest : List ℕ)
      → lo < 256
      → hi < 256
      → length payload < 256
      → length (wire msg_id payload lo hi rest) ≤ k_max_rx_buffer_bytes
      → Outcome
          (wire msg_id payload lo hi rest)
          (extract_frame (wire msg_id payload lo hi rest) msg_id0 payload0)
  Outcome-wire msg_id payload lo hi rest hl hh hp fits =
      let read = extract_frame-wire msg_id0 payload0 msg_id payload lo hi rest hl hh fits in
      elim (ℕ_discrete (frame_crc msg_id payload) (lo + 256 * hi)) [
        | yes same ↦
            found [] msg_id payload rest tt hp
              (wire-build_frame msg_id payload lo hi rest hp hl hh same) (ground (arith, read))
        | no differs ↦
            broken [] msg_id payload lo hi rest tt hp hl hh differs refl (ground (arith, read))
      ]

  -- Every call on bytes within the limit has one of the three outcomes.
  pub extract_frame-Outcome :
      (buffer : List ℕ)
      → length buffer ≤ k_max_rx_buffer_bytes
      → IsBytes buffer
      → Outcome buffer (extract_frame buffer msg_id0 payload0)
  extract_frame-Outcome [] fits h =
      waits [] [] tt tt refl (extract_frame-pending msg_id0 payload0 [] tt fits)
  extract_frame-Outcome (x ∷ xs) fits h =
      let rest = extract_frame-Outcome xs (omega arith) h.1 in
      elim (shape (x ∷ xs) h) [
        | pending p ↦
            waits [] (x ∷ xs) tt p refl (extract_frame-pending msg_id0 payload0 (x ∷ xs) p fits)
        | garbage b r ne e ↦
            let ne' : x ≢ start_byte = λ same. ne (cc) in
            rw (extract_frame-garbage msg_id0 payload0 x xs ne' (omega arith))
              (Outcome-cons ne' rest)
        | complete m p lo hi r hl hh hp e ↦
            subst (λ buf. Outcome buf (extract_frame buf msg_id0 payload0)) (sym e)
              (Outcome-wire m p lo hi r hl hh hp
                (subst (λ buf. length buf ≤ k_max_rx_buffer_bytes) e fits))
      ]

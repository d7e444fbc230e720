-- ===== src/Protocol/Frame/Shape.antt =====
-- What a buffer of `ExtractFrame` of binary_protocol.cpp can look like.
use my_diffbot.Common.{
  ℕ, zero, suc, ◌+◌, ◌*◌, ◌/◌, ◌%◌, ◌^◌, ◌≤◌, ◌<◌, ◌≡◌, ◌≢◌, refl, ap, arith, List, [], ◌∷◌, ◌++◌,
  append_assoc, u8, length, take, IsBytes, All-append_right, length-take, take_all, dec_lt,
  ℕ_discrete, subst,
}
use my_diffbot.Common.Bits.{bit_and-mask}
use my_diffbot.Protocol.Crc.{crc16_ccitt}
use my_diffbot.Protocol.Crc.Linear.{crc16_ccitt-lt}
use my_diffbot.Protocol.Frame.{start_byte, build_frame}
use my_diffbot.Protocol.Frame.Cases.{IsPending, wire, frame_crc}

-- What `build_frame` keeps of a payload: its length is taken modulo 256.
abbrev pub kept : List ℕ → List ℕ
kept payload = take (u8 (length payload)) payload

pub length-kept : (payload : List ℕ) → length (kept payload) ≡ u8 (length payload)
length-kept payload = omega (arith, length-take (u8 (length payload)) payload)

pub kept_all : (payload : List ℕ) → length payload < 256 → kept payload ≡ payload
kept_all payload h = take_all (u8 (length payload)) payload (omega arith)

-- A frame is the wire form with the checksum of what it carries.
pub build_frame-wire :
    (msg_id : ℕ) (payload rest : List ℕ)
    → build_frame msg_id payload ++ rest
      ≡ wire msg_id
          (kept payload)
          (frame_crc msg_id (kept payload) % 256)
          (frame_crc msg_id (kept payload) / 256)
          rest
unfolding build_frame
build_frame-wire msg_id payload rest =
    let n = u8 (length payload) in
    let crc = crc16_ccitt (start_byte ∷ msg_id ∷ n ∷ kept payload) (3 + n) in
    rw
      (
        length-kept payload,
        append_assoc (kept payload) _ rest,
        bit_and-mask 8 crc,
        bit_and-mask 8 (crc / 2 ^ 8),
      )
      (ap (λ (t : ℕ × ℕ). start_byte ∷ msg_id ∷ n ∷ (kept payload ++ (t.0 ∷ t.1 ∷ rest)))
        (ground (arith, crc16_ccitt-lt (start_byte ∷ msg_id ∷ n ∷ kept payload) (3 + n))))

-- Conversely, a wire form with the right checksum is a frame.
pub wire-build_frame :
    (msg_id : ℕ) (payload : List ℕ) (lo hi : ℕ) (rest : List ℕ)
    → length payload < 256
    → lo < 256
    → hi < 256
    → frame_crc msg_id payload ≡ lo + 256 * hi
    → wire msg_id payload lo hi rest ≡ build_frame msg_id payload ++ rest
wire-build_frame msg_id payload lo hi rest hp hl hh e =
    let low : frame_crc msg_id payload % 256 ≡ lo = omega arith in
    let high : frame_crc msg_id payload / 256 ≡ hi = omega arith in
    rw (build_frame-wire msg_id payload rest, kept_all payload hp, low, high)

pub data Shape (buffer : List ℕ) : Type 0 where
  pending : IsPending buffer → Shape buffer
  garbage : (b : ℕ) (rest : List ℕ) → b ≢ start_byte → buffer ≡ b ∷ rest → Shape buffer
  complete :
      (msg_id : ℕ) (payload : List ℕ) (lo hi : ℕ) (rest : List ℕ)
      → lo < 256
      → hi < 256
      → length payload < 256
      → buffer ≡ wire msg_id payload lo hi rest
      → Shape buffer

-- A sequence that is long enough holds a payload and two more bytes.
split_body :
    (n : ℕ) (body : List ℕ)
    → n + 2 ≤ length body
    → (payload : List ℕ) × (lo : ℕ) × (hi : ℕ) × (rest : List ℕ) × (length payload ≡ n)
      × (body ≡ payload ++ (lo ∷ hi ∷ rest))
split_body zero [] h = absurd (omega arith)
split_body zero (lo ∷ []) h = absurd (omega arith)
split_body zero (lo ∷ hi ∷ rest) h = ([], lo, hi, rest, refl, refl)
split_body (suc n) [] h = absurd (omega arith)
split_body (suc n) (b ∷ body) h =
    let (payload, lo, hi, rest, len, e) = split_body n body (omega arith) in
    (b ∷ payload, lo, hi, rest, ap suc len, ap (◌∷◌ b) e)

Shape-frame :
    (msg_id len : ℕ) (body : List ℕ)
    → len < 256
    → IsBytes body
    → Shape (start_byte ∷ msg_id ∷ len ∷ body)
Shape-frame msg_id len body hl hb = elim (dec_lt (length body) (len + 2)) [
  | yes short ↦ pending (refl, short)
  | no long ↦
      let (payload, lo, hi, rest, n, e) = split_body len body (omega arith) in
      let (hlo, (hhi, _)) =
        All-append_right (λ b. b < 256) payload (lo ∷ hi ∷ rest) (subst IsBytes e hb) in
      complete msg_id payload lo hi rest hlo hhi (rw n hl) (rw (n, e))
]

Shape-start : (rest : List ℕ) → IsBytes rest → Shape (start_byte ∷ rest)
Shape-start [] h = pending refl
Shape-start (msg_id ∷ []) h = pending refl
Shape-start (msg_id ∷ len ∷ body) (_, (hl, hb)) = Shape-frame msg_id len body hl hb

pub shape : (buffer : List ℕ) → IsBytes buffer → Shape buffer
shape [] h = pending tt
shape (b ∷ rest) (hb, h) = elim (ℕ_discrete b start_byte) [
  | yes e ↦ rw e (Shape-start rest h)
  | no ne ↦ garbage b rest ne refl
]

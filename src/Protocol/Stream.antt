-- ===== src/Protocol/Stream.antt =====
-- What a sequence of received bytes means, as a grammar that knows nothing of buffers, chunks or
-- limits: frames, garbage between them, corrupt frames and an unfinished rest.
pub mod Unique
use my_diffbot.Common.{
  ℕ, suc, ◌+◌, ◌*◌, ◌≤◌, ◌<◌, ◌≡◌, ◌≢◌, refl, sym, ap, ◌∙◌, arith, List, [], ◌∷◌, ◌++◌,
  append_assoc, append-nil, length, All, All-append_right, IsBytes, subst,
}
use my_diffbot.Protocol.Frame.{start_byte, build_frame}
use my_diffbot.Protocol.Frame.Cases.{IsPending, wire, frame_crc}
use my_diffbot.Protocol.Frame.Shape.{kept, kept_all}
use my_diffbot.Protocol.Frame.Outcome.{IsGarbage}

pub data Event : Type 0 where
  message : ℕ → List ℕ → Event
  corrupt : Event

-- `Decodes bytes events rest`: the bytes hold these events in this order and end in `rest`, which
-- waits for more.
pub data Decodes : List ℕ → List Event → List ℕ → Type 0 where
  wait : {bytes q : List ℕ} → IsPending q → bytes ≡ q → Decodes bytes [] q
  skip :
      {bytes q : List ℕ} {es : List Event} (b : ℕ)
      → b ≢ start_byte
      → Decodes bytes es q
      → Decodes (b ∷ bytes) es q
  frame :
      {bytes q : List ℕ} {es : List Event} (msg_id : ℕ) (payload rest : List ℕ)
      → length payload < 256
      → bytes ≡ build_frame msg_id payload ++ rest
      → Decodes rest es q
      → Decodes bytes (message msg_id payload ∷ es) q
  bad :
      {bytes q : List ℕ} {es : List Event} (msg_id : ℕ) (payload : List ℕ) (lo hi : ℕ)
      (rest : List ℕ)
      → length payload < 256
      → lo < 256
      → hi < 256
      → frame_crc msg_id payload ≢ lo + 256 * hi
      → bytes ≡ wire msg_id payload lo hi rest
      → Decodes (msg_id ∷ length payload ∷ (payload ++ (lo ∷ hi ∷ rest))) es q
      → Decodes bytes (corrupt ∷ es) q

pub Decodes-skip :
    (g : List ℕ) {bytes q : List ℕ} {es : List Event}
    → IsGarbage g
    → Decodes bytes es q
    → Decodes (g ++ bytes) es q
Decodes-skip [] h d = d
Decodes-skip (b ∷ g) (ne, h) d = skip b ne (Decodes-skip g h d)

-- What waits at the end of one part of the bytes is read again in front of the next part.
pub Decodes-append :
    {a : List ℕ} {es : List Event} {q : List ℕ} (b : List ℕ) {es' : List Event} {q' : List ℕ}
    → Decodes a es q
    → Decodes (q ++ b) es' q'
    → Decodes (a ++ b) (es ++ es') q'
Decodes-append b {es'} {q'} (wait p e) d = subst (λ t. Decodes (t ++ b) es' q') (sym e) d
Decodes-append b (skip c ne r) d = skip c ne (Decodes-append b r d)
Decodes-append b (frame m p rest h e r) d =
    frame m p (rest ++ b) h (ap (λ t. t ++ b) e ∙ append_assoc (build_frame m p) rest b)
      (Decodes-append b r d)
Decodes-append b {es'} {q'} (bad {es = es0} m p lo hi rest h hl hh c e r) d =
    let regroup = append_assoc p (lo ∷ hi ∷ rest) b in
    bad m p lo hi (rest ++ b) h hl hh c
      (ap (λ t. t ++ b) e ∙ ap (λ t. start_byte ∷ m ∷ length p ∷ t) regroup)
      (subst (λ t. Decodes (m ∷ length p ∷ t) (es0 ++ es') q') regroup (Decodes-append b r d))

-- The rest of a decoding waits for more bytes, and consists of bytes if the whole does.
pub Decodes-IsPending :
    {bytes : List ℕ} {es : List Event} {q : List ℕ} → Decodes bytes es q → IsPending q
Decodes-IsPending (wait p e) = p
Decodes-IsPending (skip b ne d) = Decodes-IsPending d
Decodes-IsPending (frame m p rest h e d) = Decodes-IsPending d
Decodes-IsPending (bad m p lo hi rest h hl hh c e d) = Decodes-IsPending d

pub Decodes-IsBytes :
    {bytes : List ℕ} {es : List Event} {q : List ℕ} → Decodes bytes es q → IsBytes bytes → IsBytes q
Decodes-IsBytes (wait p e) h = subst IsBytes e h
Decodes-IsBytes (skip b ne d) h = Decodes-IsBytes d h.1
Decodes-IsBytes (frame m p rest hp e d) h =
    Decodes-IsBytes d (All-append_right (λ b. b < 256) (build_frame m p) rest (subst IsBytes e h))
Decodes-IsBytes (bad m p lo hi rest hp hl hh c e d) h = Decodes-IsBytes d (subst IsBytes e h).1

-- What waits is shorter than the longest frame, of 3 + 255 + 2 bytes.
pub length-pending-lt : (q : List ℕ) → IsPending q → IsBytes q → length q < 260
length-pending-lt [] p h = omega arith
length-pending-lt (b ∷ []) p h = omega arith
length-pending-lt (b ∷ m ∷ []) p h = omega arith
length-pending-lt (b ∷ m ∷ len ∷ rest) (_, short) (_, (_, (hl, _))) = omega arith

-- A pending rest decodes to itself.
pub Decodes-pending : {q : List ℕ} → IsPending q → Decodes q [] q
Decodes-pending p = wait p refl

abbrev pub Message : Type 0
Message = ℕ × List ℕ

-- The bytes of a sequence of messages.
abbrev pub build_frames : List Message → List ℕ
build_frames [] = []
build_frames ((msg_id, payload) ∷ ms) = build_frame msg_id payload ++ build_frames ms

abbrev pub events : List Message → List Event
events [] = []
events ((msg_id, payload) ∷ ms) = message msg_id payload ∷ events ms

-- Frames sent one after another decode to the messages, and nothing is left.
pub Decodes-build_frames :
    (ms : List Message)
    → All (λ (m : Message). length m.1 < 256) ms
    → Decodes (build_frames ms) (events ms) []
Decodes-build_frames [] h = wait tt refl
Decodes-build_frames ((msg_id, payload) ∷ ms) (h, hs) =
    frame msg_id payload (build_frames ms) h refl (Decodes-build_frames ms hs)

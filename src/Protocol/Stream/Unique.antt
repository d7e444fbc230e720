-- ===== src/Protocol/Stream/Unique.antt =====
-- Two readings of the same bytes by the grammar of Protocol/Stream.
use my_diffbot.Common.{
  ℕ, ◌+◌, ◌*◌, ◌%◌, ◌/◌, ◌<◌, ◌≡◌, ◌≢◌, refl, sym, ap, ap₂, ◌∙◌, arith, List, [], ◌∷◌, ◌++◌, length,
  subst, length-append, drop,
}
use my_diffbot.Protocol.Frame.{start_byte, build_frame}
use my_diffbot.Protocol.Frame.Cases.{IsPending, wire, frame_crc}
use my_diffbot.Protocol.Frame.Shape.{kept_all, build_frame-wire}
use my_diffbot.Protocol.Stream.{Event, corrupt, Decodes, wait, skip, frame, bad}

-- The parts of a wire form are determined by it.
pub append_cancel_prefix :
    (xs ys : List ℕ) {us vs : List ℕ}
    → length xs ≡ length ys
    → xs ++ us ≡ ys ++ vs
    → (xs ≡ ys) × (us ≡ vs)
append_cancel_prefix [] [] h e = (refl, e)
append_cancel_prefix [] (y ∷ ys) h e = absurd (omega arith)
append_cancel_prefix (x ∷ xs) [] h e = absurd (omega arith)
append_cancel_prefix (x ∷ xs) (y ∷ ys) {us} {vs} h e =
    let (p, q) = append_cancel_prefix xs ys {us = us} {vs = vs} (omega arith) (cc) in
    (ap₂ ◌∷◌ (cc) p, q)

pub record SameWire (m m' : ℕ) (p p' : List ℕ) (lo lo' hi hi' : ℕ) (r r' : List ℕ) : Type 0 where
  pub ids : m ≡ m'
  pub payloads : p ≡ p'
  pub lows : lo ≡ lo'
  pub highs : hi ≡ hi'
  pub rests : r ≡ r'

wire_injective :
    (m m' : ℕ) (p p' : List ℕ) (lo lo' hi hi' : ℕ) (r r' : List ℕ)
    → wire m p lo hi r ≡ wire m' p' lo' hi' r'
    → SameWire m m' p p' lo lo' hi hi' r r'
wire_injective m m' p p' lo lo' hi hi' r r' e =
    let (payloads, tails) =
      append_cancel_prefix p p' {us = lo ∷ hi ∷ r} {vs = lo' ∷ hi' ∷ r'} (cc) (cc) in
    record { ids = cc; payloads = payloads; lows = cc; highs = cc; rests = cc }

-- A frame in its wire form.
frame_wire :
    {bytes : List ℕ} (m : ℕ) (p rest : List ℕ)
    → length p < 256
    → bytes ≡ build_frame m p ++ rest
    → bytes ≡ wire m p (frame_crc m p % 256) (frame_crc m p / 256) rest
frame_wire m p rest h e = e ∙ (rw (kept_all p h) at (build_frame-wire m p rest))

pending-ne-wire :
    {bytes q : List ℕ} (m : ℕ) (p : List ℕ) (lo hi : ℕ) (r : List ℕ)
    → IsPending q
    → bytes ≡ q
    → bytes ≡ wire m p lo hi r
    → ⊥
pending-ne-wire m p lo hi r hq e e' =
    omega (arith, (subst IsPending (sym e ∙ e') hq).1, length-append p (lo ∷ hi ∷ r))

pending-ne-garbage : {q bytes : List ℕ} (b : ℕ) → IsPending q → b ≢ start_byte → b ∷ bytes ≡ q → ⊥
pending-ne-garbage {q = []} b hq ne e = cc
pending-ne-garbage {q = x ∷ []} b hq ne e = ne (cc)
pending-ne-garbage {q = x ∷ y ∷ []} b hq ne e = ne (cc)
pending-ne-garbage {q = x ∷ y ∷ z ∷ q} b hq ne e = ne (cc (hq.0))

good-ne-bad :
    (m : ℕ) (p : List ℕ) (r : List ℕ) (m' : ℕ) (p' : List ℕ) (lo hi : ℕ) (r' : List ℕ)
    → frame_crc m' p' ≢ lo + 256 * hi
    → wire m p (frame_crc m p % 256) (frame_crc m p / 256) r ≡ wire m' p' lo hi r'
    → ⊥
good-ne-bad m p r m' p' lo hi r' wrong e =
    let same = wire_injective m m' p p' _ lo _ hi r r' e in
    wrong (sym (ap₂ frame_crc same.ids same.payloads) ∙ omega (arith, same.lows, same.highs))

abbrev Agree : List Event → List Event → List ℕ → List ℕ → Type 0
Agree es es' q q' = (es ≡ es') × (q ≡ q')

-- Two decodings of the same bytes have the same events and the same rest.
pub Decodes_unique :
    {bytes : List ℕ} {es : List Event} {q : List ℕ} {es' : List Event} {q' : List ℕ}
    → Decodes bytes es q
    → Decodes bytes es' q'
    → (es ≡ es') × (q ≡ q')
Decodes_unique (wait p e) (wait p' e') = (refl, sym e ∙ e')
Decodes_unique (wait p e) (skip b ne d) = absurd (pending-ne-garbage b p ne e)
Decodes_unique (wait p e) (frame m pl r h e' d) =
    absurd (pending-ne-wire m pl _ _ r p e (frame_wire m pl r h e'))
Decodes_unique (wait p e) (bad m pl lo hi r h hl hh c e' d) =
    absurd (pending-ne-wire m pl lo hi r p e e')
Decodes_unique (skip b ne d) (wait p e) = absurd (pending-ne-garbage b p ne e)
Decodes_unique (skip b ne d) (skip b' ne' d') = Decodes_unique d d'
Decodes_unique (skip b ne d) (frame m pl r h e' d') = absurd (ne (cc (frame_wire m pl r h e')))
Decodes_unique (skip b ne d) (bad m pl lo hi r h hl hh c e' d') = absurd (ne (cc))
Decodes_unique (frame m pl r h e d) (wait p e') =
    absurd (pending-ne-wire m pl _ _ r p e' (frame_wire m pl r h e))
Decodes_unique (frame m pl r h e d) (skip b ne d') = absurd (ne (cc (frame_wire m pl r h e)))
Decodes_unique (frame m pl r h e d) (frame {q = q1} {es = es1} m' pl' r' h' e' d') =
    let same =
      wire_injective m m' pl pl' _ _ _ _ r r'
        (sym (frame_wire m pl r h e) ∙ frame_wire m' pl' r' h' e') in
    let (events, rest) = Decodes_unique d (subst (λ t. Decodes t es1 q1) (sym same.rests) d') in
    (cc (same.ids, same.payloads, events), rest)
Decodes_unique (frame m pl r h e d) (bad m' pl' lo hi r' h' hl hh c e' d') =
    absurd (good-ne-bad m pl r m' pl' lo hi r' c (sym (frame_wire m pl r h e) ∙ e'))
Decodes_unique (bad m pl lo hi r h hl hh c e d) (wait p e') =
    absurd (pending-ne-wire m pl lo hi r p e' e)
Decodes_unique (bad m pl lo hi r h hl hh c e d) (skip b ne d') = absurd (ne (cc))
Decodes_unique (bad m pl lo hi r h hl hh c e d) (frame m' pl' r' h' e' d') =
    absurd (good-ne-bad m' pl' r' m pl lo hi r c (sym (frame_wire m' pl' r' h' e') ∙ e))
Decodes_unique (bad m pl lo hi r h hl hh c e d)
      (bad {q = q1} {es = es1} m' pl' lo' hi' r' h' hl' hh' c' e' d') =
    let tails : m' ∷ length pl' ∷ (pl' ++ (lo' ∷ hi' ∷ r'))
        ≡ m ∷ length pl ∷ (pl ++ (lo ∷ hi ∷ r)) =
      ap (drop 1) (sym e' ∙ e) in
    let (events, rest) = Decodes_unique d (subst (λ t. Decodes t es1 q1) tails d') in
    (ap (◌∷◌ corrupt) events, rest)

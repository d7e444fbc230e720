-- ===== src/Transport/Read/Frames.antt =====
-- `ExtractFrames` of serial_transport.cpp against the grammar of Protocol/Stream.
use my_diffbot.Common.{
  ℕ, zero, suc, ◌≤◌, ◌<◌, ◌≡◌, refl, sym, ap, ◌∙◌, subst, arith, List, [], ◌∷◌, ◌++◌, Option, some,
  length, length-append, IsBytes, All-append_right,
}
use my_diffbot.Protocol.Frame.{k_max_rx_buffer_bytes, build_frame, extract_frame, ok, crc_mismatch}
use my_diffbot.Protocol.Frame.Cases.{wire, left, waiting}
use my_diffbot.Protocol.Frame.Outcome.{waits, found, broken, extract_frame-Outcome}
use my_diffbot.Protocol.Frame.RoundTrip.{length-build_frame-ge}
use my_diffbot.Protocol.Stream.{Event, message, corrupt, Decodes, wait, frame, bad, Decodes-skip}
use my_diffbot.Transport.Serial.{Hook}
use my_diffbot.Transport.{Link, Transport, intercept_ack, dispatch, count_crc_error}
use my_diffbot.Transport.Read.{after_scan, extract_loop, extract_frames}

module _ {H : Type 0} (on_message : Hook H) (now : ℕ) where
  -- What the events of a decoded stream do to the link, in order.
  unfoldable pub handle : List Event → Link H → Link H
  handle [] l = l
  handle (message msg_id payload ∷ es) l = handle es (dispatch on_message now msg_id payload l)
  handle (corrupt ∷ es) l = handle es (count_crc_error l)

  pub handle-append :
      (es es' : List Event) (l : Link H) → handle (es ++ es') l ≡ handle es' (handle es l)
  unfolding handle
  handle-append [] es' l = refl
  handle-append (message m p ∷ es) es' l = handle-append es es' (dispatch on_message now m p l)
  handle-append (corrupt ∷ es) es' l = handle-append es es' (count_crc_error l)

  pub shared-dispatch :
      (msg_id : ℕ) (payload : List ℕ) (l : Link H)
      → (dispatch on_message now msg_id payload l).shared ≡ on_message now msg_id payload l.shared
  unfolding dispatch intercept_ack
  shared-dispatch msg_id payload l = ground arith

module _ {D H : Type 0} (on_message : Hook H) (now : ℕ) where
  -- The buffer was decoded completely: its events were handled in order, and what waits is kept.
  pub record Processed (t : Transport D H) (result : Option (Transport D H)) : Type 0 where
    pub events : List Event
    pub rest : List ℕ
    pub decodes : Decodes t.rx_buffer events rest
    pub result_eq :
        result ≡ some (record t { rx_buffer = rest; link = handle on_message now events t.link })

  module _ (fuel : ℕ) (t : Transport D H) where
    abbrev loop : Option (Transport D H)
    loop = extract_loop on_message now (suc fuel) t

    loop_waits :
        (q : List ℕ)
        → extract_frame t.rx_buffer 0 [] ≡ left 0 [] (waiting 0 [] q) q
        → loop ≡ some (record t { rx_buffer = q })
    unfolding extract_loop
    loop_waits [] r = ap (after_scan on_message now (extract_loop on_message now fuel) t) r
    loop_waits (x ∷ q) r = ap (after_scan on_message now (extract_loop on_message now fuel) t) r

    loop_found :
        (m : ℕ) (p rest : List ℕ)
        → extract_frame t.rx_buffer 0 []
          ≡ record { result = ok; buffer = rest; out_msg_id = m; out_payload = p }
        → loop
          ≡ extract_loop on_message now fuel
              (record t { rx_buffer = rest; link = dispatch on_message now m p t.link })
    unfolding extract_loop
    loop_found m p rest r = ap (after_scan on_message now (extract_loop on_message now fuel) t) r

    loop_broken :
        (rest : List ℕ)
        → extract_frame t.rx_buffer 0 [] ≡ left 0 [] crc_mismatch rest
        → loop
          ≡ extract_loop on_message now fuel
              (record t { rx_buffer = rest; link = count_crc_error t.link })
    unfolding extract_loop
    loop_broken rest r = ap (after_scan on_message now (extract_loop on_message now fuel) t) r

  -- With more fuel than the buffer has bytes the loop ends, on a buffer within the limit.
  pub extract_loop-Processed :
      (fuel : ℕ) (t : Transport D H)
      → length t.rx_buffer < fuel
      → length t.rx_buffer ≤ k_max_rx_buffer_bytes
      → IsBytes t.rx_buffer
      → Processed t (extract_loop on_message now fuel t)
  unfolding handle
  extract_loop-Processed zero t enough fits h = absurd (omega arith)
  extract_loop-Processed (suc fuel) t enough fits h =
      elim (extract_frame-Outcome 0 [] t.rx_buffer fits h) [
        | waits g q hg hq e r ↦ record {
          events = [];
          rest = q;
          decodes = subst (λ b. Decodes b [] q) (sym e) (Decodes-skip g hg (wait hq refl));
          result_eq = loop_waits fuel t q r;
        }
        | found g m p rest hg hp e r ↦
            let next = record t { rx_buffer = rest; link = dispatch on_message now m p t.link } in
            let shorter : length rest < length t.rx_buffer = omega (
              arith,
              ap length e,
              length-append g (build_frame m p ++ rest),
              length-build_frame-ge m p rest,
            ) in
            let rest_bytes : IsBytes rest =
              All-append_right (λ b. b < 256) (build_frame m p) rest
                (All-append_right (λ b. b < 256) g (build_frame m p ++ rest) (subst IsBytes e h)) in
            let ih = extract_loop-Processed fuel next (omega arith) (omega arith) rest_bytes in
            record {
              events = message m p ∷ ih.events;
              rest = ih.rest;
              decodes =
                  subst (λ b. Decodes b (message m p ∷ ih.events) ih.rest) (sym e)
                    (Decodes-skip g hg (frame m p rest hp refl ih.decodes));
              result_eq = loop_found fuel t m p rest r ∙ ih.result_eq;
            }
        | broken g m p lo hi rest hg hp hl hh c e r ↦
            let tail : List ℕ = m ∷ length p ∷ (p ++ (lo ∷ hi ∷ rest)) in
            let next = record t { rx_buffer = tail; link = count_crc_error t.link } in
            let shorter : length tail < length t.rx_buffer =
              omega (arith, ap length e, length-append g (wire m p lo hi rest)) in
            let rest_bytes : IsBytes tail =
              (All-append_right (λ b. b < 256) g (wire m p lo hi rest) (subst IsBytes e h)).1 in
            let ih = extract_loop-Processed fuel next (omega arith) (omega arith) rest_bytes in
            record {
              events = corrupt ∷ ih.events;
              rest = ih.rest;
              decodes =
                  subst (λ b. Decodes b (corrupt ∷ ih.events) ih.rest) (sym e)
                    (Decodes-skip g hg (bad m p lo hi rest hp hl hh c refl ih.decodes));
              result_eq = loop_broken fuel t tail r ∙ ih.result_eq;
            }
      ]

  pub extract_frames-Processed :
      (t : Transport D H)
      → length t.rx_buffer ≤ k_max_rx_buffer_bytes
      → IsBytes t.rx_buffer
      → Processed t (extract_frames on_message now t)
  unfolding extract_frames
  extract_frames-Processed t fits h =
      extract_loop-Processed (suc (length t.rx_buffer)) t (omega arith) fits h

  -- A buffer beyond the limit is thrown away.
  pub extract_frames_overflow :
      (t : Transport D H)
      → k_max_rx_buffer_bytes < length t.rx_buffer
      → extract_frames on_message now t ≡ some (record t { rx_buffer = [] })
  unfolding extract_frames extract_loop extract_frame
  extract_frames_overflow t over = ground arith

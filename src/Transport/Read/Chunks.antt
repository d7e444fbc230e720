-- ===== src/Transport/Read/Chunks.antt =====
-- The loop of `Read` of serial_transport.cpp over the chunks of what arrived.
use my_diffbot.Common.{
  ℕ, zero, suc, ◌+◌, ◌-◌, ◌≤◌, ◌<◌, ◌≡◌, inl, inr, refl, sym, ap, ◌∙◌, subst, arith, List, [], ◌++◌,
  Option, some, min, take, drop, length, length-append, length-take, length-drop, take-min,
  drop-drop, drop_all, take-append-drop, IsBytes, All-append, All-take, All-drop, append_assoc,
  append-nil, true, false, Bool-cases, ltb,
}
use my_diffbot.Protocol.Frame.{k_max_rx_buffer_bytes}
use my_diffbot.Protocol.Frame.Cases.{IsPending}
use my_diffbot.Protocol.Stream.{
  Event, Decodes, Decodes-append, Decodes-pending, Decodes-IsPending, Decodes-IsBytes,
  length-pending-lt,
}
use my_diffbot.Transport.Serial.{Hook}
use my_diffbot.Transport.{Transport}
use my_diffbot.Transport.Read.{k_chunk_bytes, extract_frames, feed}
use my_diffbot.Transport.Read.Frames.{handle, handle-append, extract_frames-Processed}

-- Between calls of `read` the buffer holds bytes that wait for more.
pub record IsReady {D H : Type 0} (t : Transport D H) : Type 0 where
  pub waits : IsPending t.rx_buffer
  pub bytes : IsBytes t.rx_buffer

-- What one round of the loop appends.
abbrev chunk : ℕ → List ℕ → List ℕ
chunk offset raw = take (min (length raw) (offset + k_chunk_bytes) - offset) (drop offset raw)

chunk-append :
    (offset : ℕ) (raw : List ℕ)
    → chunk offset raw ++ drop (offset + k_chunk_bytes) raw ≡ drop offset raw
chunk-append offset raw =
    rw
      (
        take-min k_chunk_bytes (min (length raw) (offset + k_chunk_bytes) - offset)
            (drop offset raw) (omega (arith, length-drop offset raw)),
        drop-drop offset k_chunk_bytes (offset + k_chunk_bytes) raw refl,
      )
      (take-append-drop k_chunk_bytes (drop offset raw))

length-chunk-le : (offset : ℕ) (raw : List ℕ) → length (chunk offset raw) ≤ k_chunk_bytes
length-chunk-le offset raw =
    omega
      (arith, length-take (min (length raw) (offset + k_chunk_bytes) - offset) (drop offset raw))

module _ {D H : Type 0} (on_message : Hook H) (now : ℕ) where
  -- The outcome of reading `raw` behind the buffer of `t`.
  pub record Fed (raw : List ℕ) (t : Transport D H) (result : Option (Transport D H)) : Type 0 where
    pub events : List Event
    pub rest : List ℕ
    pub decodes : Decodes (t.rx_buffer ++ raw) events rest
    pub result_eq :
        result ≡ some (record t { rx_buffer = rest; link = handle on_message now events t.link })

  feed_done :
      (fuel offset : ℕ) (raw : List ℕ) (t : Transport D H)
      → ltb offset (length raw) ≡ false
      → feed on_message now (suc fuel) offset raw t ≡ some t
  unfolding feed
  feed_done fuel offset raw t h = rw h

  feed_more :
      (fuel offset : ℕ) (raw : List ℕ) (t u : Transport D H)
      → ltb offset (length raw) ≡ true
      → extract_frames on_message now (record t { rx_buffer = t.rx_buffer ++ chunk offset raw })
        ≡ some u
      → feed on_message now (suc fuel) offset raw t
        ≡ feed on_message now fuel (offset + k_chunk_bytes) raw u
  unfolding feed
  feed_more fuel offset raw t u h e = rw (h, e)

  -- From any offset on, with fuel for the bytes that are left.
  pub feed-Fed :
      (fuel offset : ℕ) (raw : List ℕ) (t : Transport D H)
      → 0 < fuel
      → length raw < offset + fuel
      → IsReady t
      → IsBytes raw
      → Fed (drop offset raw) t (feed on_message now fuel offset raw t)
  unfolding handle
  feed-Fed zero offset raw t pos enough ready h = absurd (omega arith)
  feed-Fed (suc fuel) offset raw t pos enough ready h =
      elim (Bool-cases (ltb offset (length raw))) [
        | inl more ↦
            let filled : Transport D H = record t { rx_buffer = t.rx_buffer ++ chunk offset raw } in
            let fits : length filled.rx_buffer ≤ k_max_rx_buffer_bytes = omega (
              arith,
              length-append t.rx_buffer (chunk offset raw),
              length-chunk-le offset raw,
              length-pending-lt t.rx_buffer ready.waits ready.bytes,
            ) in
            let filled_bytes : IsBytes filled.rx_buffer =
              All-append (λ b. b < 256) t.rx_buffer (chunk offset raw) ready.bytes
                (All-take (λ b. b < 256) (min (length raw) (offset + k_chunk_bytes) - offset)
                  (drop offset raw) (All-drop (λ b. b < 256) offset raw h)) in
            let first = extract_frames-Processed on_message now filled fits filled_bytes in
            let u : Transport D H = record t {
              rx_buffer = first.rest;
              link = handle on_message now first.events t.link;
            } in
            let ready' : IsReady u = record {
              waits = Decodes-IsPending first.decodes;
              bytes = Decodes-IsBytes first.decodes filled_bytes;
            } in
            let next =
              feed-Fed fuel (offset + k_chunk_bytes) raw u (ground arith) (omega arith) ready' h in
            record {
              events = first.events ++ next.events;
              rest = next.rest;
              decodes =
                  subst (λ b. Decodes b (first.events ++ next.events) next.rest)
                    (append_assoc t.rx_buffer (chunk offset raw) (drop (offset + k_chunk_bytes) raw)
                      ∙ ap (◌++◌ t.rx_buffer) (chunk-append offset raw))
                    (Decodes-append (drop (offset + k_chunk_bytes) raw) first.decodes next.decodes);
              result_eq =
                  feed_more fuel offset raw t u more first.result_eq
                  ∙ next.result_eq
                  ∙ rw (handle-append on_message now first.events next.events t.link);
            }
        | inr done ↦ record {
          events = [];
          rest = t.rx_buffer;
          decodes =
              subst (λ b. Decodes b [] t.rx_buffer)
                (sym (
                  ap (◌++◌ t.rx_buffer) (drop_all offset raw (ground arith))
                  ∙ append-nil t.rx_buffer))
                (Decodes-pending ready.waits);
          result_eq = feed_done fuel offset raw t done;
        }
      ]

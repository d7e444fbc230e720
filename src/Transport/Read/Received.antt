-- ===== src/Transport/Read/Received.antt =====
-- One call of `Read` of serial_transport.cpp, from what arrived to the state after it.
use mathlib.Core.Option
use my_diffbot.Common.{
  ℕ, suc, ◌<◌, ◌≡◌, inl, inr, refl, sym, ap₂, ◌∙◌, subst, arith, List, [], ◌∷◌, ◌++◌, Option, none,
  some, length, IsBytes, All, All-append, append_assoc, false, Bool-cases, ◌==◌, if◌then◌else◌,
}
use my_diffbot.Protocol.Frame.Cases.{IsPending}
use my_diffbot.Protocol.Stream.{
  Event, Message, Decodes, build_frames, events, Decodes-build_frames, Decodes-append,
  Decodes-IsPending, Decodes-IsBytes, length-pending-lt,
}
use my_diffbot.Protocol.Stream.Unique.{Decodes_unique}
use my_diffbot.Transport.Serial.{SerialPort, Hook}
use my_diffbot.Transport.{Transport}
use my_diffbot.Transport.Read.{feed, receive, read_raw, read}
use my_diffbot.Transport.Read.Frames.{handle, handle-append}
use my_diffbot.Transport.Read.Chunks.{IsReady, Fed, feed-Fed}

module _ {D H : Type 0} (on_message : Hook H) (now : ℕ) where
  -- The whole loop of `Read` over what arrived.
  abbrev pub feed_all : List ℕ → Transport D H → Option (Transport D H)
  feed_all raw t = feed on_message now (suc (length raw)) 0 raw t

  pub feed_all-Fed :
      (raw : List ℕ) (t : Transport D H)
      → IsReady t
      → IsBytes raw
      → Fed on_message now raw t (feed_all raw t)
  feed_all-Fed raw t ready h =
      feed-Fed on_message now (suc (length raw)) 0 raw t (omega arith) (omega arith) ready h

  -- At a buffer that holds bytes that wait for more, any decoding of the buffer and of the bytes
  -- that arrive gives the outcome of the loop of `Read`: its events are handled in order, and its
  -- rest stays in the buffer.
  pub feed_all-Decodes :
      (raw : List ℕ) (t : Transport D H) {es : List Event} {q : List ℕ}
      → IsReady t
      → IsBytes raw
      → Decodes (t.rx_buffer ++ raw) es q
      → feed_all raw t ≡ some (record t { rx_buffer = q; link = handle on_message now es t.link })
  feed_all-Decodes raw t {es} {q} ready h d =
      let out = feed_all-Fed raw t ready h in
      let (same_events, same_rest) = Decodes_unique out.decodes d in
      out.result_eq
      ∙ ap₂
          (λ (es : List Event) (q : List ℕ).
            some (record t { rx_buffer = q; link = handle on_message now es t.link }))
          same_events same_rest

  -- Bytes may arrive cut anywhere: at a buffer that holds bytes that wait for more, reading one
  -- part and then the other ends, and leaves what reading both at once leaves.
  pub feed-append :
      (a b : List ℕ) (t : Transport D H)
      → IsReady t
      → IsBytes a
      → IsBytes b
      → (u : Transport D H) × (feed on_message now (suc (length a)) 0 a t ≡ some u)
        × (feed on_message now (suc (length b)) 0 b u
            ≡ feed on_message now (suc (length (a ++ b))) 0 (a ++ b) t)
  feed-append a b t ready ha hb =
      let fa = feed_all-Fed a t ready ha in
      let u : Transport D H = record t {
        rx_buffer = fa.rest;
        link = handle on_message now fa.events t.link;
      } in
      let ready_u : IsReady u = record {
        waits = Decodes-IsPending fa.decodes;
        bytes = Decodes-IsBytes fa.decodes (All-append (λ b. b < 256) t.rx_buffer a ready.bytes ha);
      } in
      let fb = feed_all-Fed b u ready_u hb in
      let both : Decodes (t.rx_buffer ++ (a ++ b)) (fa.events ++ fb.events) fb.rest =
        subst (λ s. Decodes s (fa.events ++ fb.events) fb.rest) (append_assoc t.rx_buffer a b)
          (Decodes-append b fa.decodes fb.decodes) in
      (
        u,
        fa.result_eq,
        fb.result_eq
            ∙ sym (
                feed_all-Decodes (a ++ b) t ready (All-append (λ b. b < 256) a b ha hb) both
                ∙ rw (handle-append on_message now fa.events fb.events t.link)),
      )

  -- Whole frames with payloads below 256 bytes that arrive at an empty buffer are dispatched one
  -- by one in the order sent, none is lost or counted as corrupt, and the buffer is empty again.
  pub feed-build_frames :
      (ms : List Message) (t : Transport D H)
      → t.rx_buffer ≡ []
      → All (λ (m : Message). length m.1 < 256) ms
      → IsBytes (build_frames ms)
      → feed on_message now (suc (length (build_frames ms))) 0 (build_frames ms) t
        ≡ some (record t { rx_buffer = []; link = handle on_message now (events ms) t.link })
  feed-build_frames ms t empty fits h =
      feed_all-Decodes (build_frames ms) t (record { waits = rw empty tt; bytes = rw empty tt }) h
        (rw empty (Decodes-build_frames ms fits))

  receive-feed :
      (raw : Option (List ℕ)) (t : Transport D H)
      → receive on_message now raw t
        ≡ feed on_message now (suc (length (Option.get_or raw []))) 0 (Option.get_or raw []) t
  unfolding receive
  receive-feed none t = unfold feed in refl
  receive-feed (some []) t = unfold feed in refl
  receive-feed (some (x ∷ xs)) t =
      let more : (suc (length xs) == 0) ≡ false = ground arith in rw more

-- A serial port delivers bytes.
abbrev pub DeliversBytes : SerialPort → Type 0
DeliversBytes S =
    (n timeout : ℕ) (d : S.Device) (raw : List ℕ)
    → (S.read_bytes n timeout d).0 ≡ some raw
    → IsBytes raw

get_or-IsBytes :
    (o : Option (List ℕ))
    → ((raw : List ℕ) → o ≡ some raw → IsBytes raw)
    → IsBytes (Option.get_or o [])
get_or-IsBytes none h = tt
get_or-IsBytes (some raw) h = h raw refl

-- A device that has nothing to deliver and stays so.
abbrev pub IsQuiet : (S : SerialPort) → S.Device → Type 0
IsQuiet S d = S.bytes_available d ≡ (some 0, d)

module _ (S : SerialPort) {H : Type 0} where
  open S use {Device, is_open, bytes_available, read_bytes}

  -- What one call of `read` takes from the device.
  unfoldable pub arrived : Transport Device H → List ℕ
  arrived t = if is_open t.device then Option.get_or (read_raw S t).0 [] else []

  -- The device afterwards.
  unfoldable pub device_after : Transport Device H → Device
  device_after t = if is_open t.device then (read_raw S t).1 else t.device

  read_raw-IsBytes :
      (t : Transport Device H)
      → DeliversBytes S
      → (raw : List ℕ) → (read_raw S t).0 ≡ some raw
      → IsBytes raw
  unfolding read_raw
  read_raw-IsBytes t delivers raw e =
      let (available, device) = bytes_available t.device in go available device e
    where
      go :
          (available : Option ℕ) (device : Device)
          → (elim available as (λ _. Option (List ℕ) × Device) [
            | none ↦ (none, device)
            | some n ↦ if n == 0 then (none, device) else read_bytes n t.read_timeout_ms device
          ]).0
            ≡ some raw
          → IsBytes raw
      go none device e = absurd (cc)
      go (some n) device e = elim (Bool-cases (n == 0)) [
        | inl z ↦ absurd (ground arith)
        | inr nz ↦ delivers n t.read_timeout_ms device raw (rw nz at e)
      ]

  pub arrived-IsBytes : (t : Transport Device H) → DeliversBytes S → IsBytes (arrived t)
  unfolding arrived
  arrived-IsBytes t delivers = elim (Bool-cases (is_open t.device)) [
    | inl e ↦ rw e (get_or-IsBytes (read_raw S t).0 (read_raw-IsBytes t delivers))
    | inr e ↦ rw e tt
  ]

  pub read-feed :
      (on_message : Hook H) (now : ℕ) (t : Transport Device H)
      → read S on_message now t
        ≡ feed on_message now
            (suc (length (arrived t)))
            0
            (arrived t)
            (record t { device = device_after t })
  unfolding arrived device_after read
  read-feed on_message now t = elim (Bool-cases (is_open t.device)) [
    | inl e ↦
        rw e (receive-feed on_message now (read_raw S t).0 (record t { device = (read_raw S t).1 }))
    | inr e ↦ rw e (unfold feed in refl)
  ]

  -- If the device delivers bytes, and the buffer holds bytes that wait for more, one call of
  -- `read` always ends: it decodes what waited in the buffer and what arrived, handles the events
  -- in order, leaves fewer than 260 bytes that wait for more, and changes nothing else but the
  -- device.
  pub read-Received :
      (on_message : Hook H) (now : ℕ) (t : Transport Device H)
      → DeliversBytes S
      → IsReady t
      → (es : List Event) × (q : List ℕ) × Decodes (t.rx_buffer ++ arrived t) es q
        × IsPending q
        × (length q < 260)
        × (read S on_message now t
            ≡ some (record t {
              device = device_after t;
              rx_buffer = q;
              link = handle on_message now es t.link;
            }))
  read-Received on_message now t delivers ready =
      let h = arrived-IsBytes t delivers in
      let out =
        feed_all-Fed on_message now (arrived t) (record t { device = device_after t })
          (record { waits = ready.waits; bytes = ready.bytes }) h in
      (
        out.events,
        out.rest,
        out.decodes,
        Decodes-IsPending out.decodes,
        length-pending-lt out.rest (Decodes-IsPending out.decodes) (
            Decodes-IsBytes out.decodes
              (All-append (λ b. b < 256) t.rx_buffer (arrived t) ready.bytes h)),
        read-feed on_message now t ∙ out.result_eq,
      )

  -- The state after a call is ready for the next one.
  pub read-IsReady :
      (on_message : Hook H) (now : ℕ) (t : Transport Device H)
      → DeliversBytes S
      → IsReady t
      → (u : Transport Device H) × (read S on_message now t ≡ some u) × IsReady u
  read-IsReady on_message now t delivers ready =
      let h = arrived-IsBytes t delivers in
      let (es, q, d, pending, short, e) = read-Received on_message now t delivers ready in
      (
        record t { device = device_after t; rx_buffer = q; link = handle on_message now es t.link },
        e,
        record {
          waits = pending;
          bytes =
              Decodes-IsBytes d (All-append (λ b. b < 256) t.rx_buffer (arrived t) ready.bytes h);
        },
      )

  -- A call of `read` at which nothing arrives changes the device alone.
  pub read_nothing :
      (on_message : Hook H) (now : ℕ) (t : Transport Device H)
      → arrived t ≡ []
      → read S on_message now t ≡ some (record t { device = device_after t })
  read_nothing on_message now t none_came =
      read-feed on_message now t ∙ rw none_came (unfold feed in refl)

  read_raw_quiet : (t : Transport Device H) → IsQuiet S t.device → read_raw S t ≡ (none, t.device)
  unfolding read_raw
  read_raw_quiet t quiet = ground arith

  pub read_quiet :
      (on_message : Hook H) (now : ℕ) (t : Transport Device H)
      → IsQuiet S t.device
      → read S on_message now t ≡ some t
  unfolding read receive
  read_quiet on_message now t quiet = elim (Bool-cases (is_open t.device)) [
    | inl e ↦ rw (e, read_raw_quiet t quiet)
    | inr e ↦ rw e
  ]

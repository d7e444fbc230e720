-- ===== src/Transport/Recorded.antt =====
-- The calls of LibSerial's `Write` by `SerialTransport`: any port, with a list of them beside it.
use mathlib.Core.Option.{some-injective}
use my_diffbot.Common.{
  arith, ℕ, ◌≡◌, refl, sym, subst, ◌∙◌, arith, List, [], ◌∷◌, ◌++◌, true, ◌==◌, Bool-cases,
  Option-cases, inl, inr,
}
use my_diffbot.Transport.Serial.{SerialPort, Hook}
use my_diffbot.Transport.{Transport}
use my_diffbot.Transport.Session.{shutdown}
use my_diffbot.Transport.Session.Closing.{OpensCleanly}
use my_diffbot.Transport.Read.{read_raw}
use my_diffbot.Transport.Read.Frames.{handle}
use my_diffbot.Transport.Read.Chunks.{IsReady}
use my_diffbot.Transport.Read.Received.{DeliversBytes, device_after, read-Received, read-IsReady}
use my_diffbot.Transport.Ack.{take_ack}
use my_diffbot.Transport.Ack.Keeps.{Keeps, take_ack-eq}

-- The port does what it did before; beside its device stands what was given to it to write, frame
-- by frame, written or not.
abbrev pub recorded : SerialPort → SerialPort
recorded S = record {
  Device = S.Device × List (List ℕ);
  is_open = λ d. S.is_open d.0;
  open_port = λ path d. ((S.open_port path d.0).0, ((S.open_port path d.0).1, d.1));
  set_baud_rate = λ rate d. ((S.set_baud_rate rate d.0).0, ((S.set_baud_rate rate d.0).1, d.1));
  flush_io_buffers = λ d. ((S.flush_io_buffers d.0).0, ((S.flush_io_buffers d.0).1, d.1));
  close_port = λ d. (S.close_port d.0, d.1);
  bytes_available = λ d. ((S.bytes_available d.0).0, ((S.bytes_available d.0).1, d.1));
  read_bytes =
      λ n timeout d. ((S.read_bytes n timeout d.0).0, ((S.read_bytes n timeout d.0).1, d.1));
  write_bytes =
      λ bytes d. ((S.write_bytes bytes d.0).0, ((S.write_bytes bytes d.0).1, d.1 ++ (bytes ∷ [])));
}

abbrev pub Logged : SerialPort → Type 0 → Type 0
Logged S H = Transport (S.Device × List (List ℕ)) H

-- Reading and writing do not close a port.
pub record StaysOpen (S : SerialPort) : Type 0 where
  pub available : (d : S.Device) → S.is_open d ≡ true → S.is_open (S.bytes_available d).1 ≡ true
  pub reads :
      (n timeout : ℕ) (d : S.Device)
      → S.is_open d ≡ true
      → S.is_open (S.read_bytes n timeout d).1 ≡ true
  pub writes :
      (bytes : List ℕ) (d : S.Device)
      → S.is_open d ≡ true
      → S.is_open (S.write_bytes bytes d).1 ≡ true

pub recorded-DeliversBytes : (S : SerialPort) → DeliversBytes S → DeliversBytes (recorded S)
recorded-DeliversBytes S delivers n timeout d raw e = delivers n timeout d.0 raw e

pub recorded-OpensCleanly : (S : SerialPort) → OpensCleanly S → OpensCleanly (recorded S)
recorded-OpensCleanly S clean = record {
  opens = λ path d closed. clean.opens path d.0 closed;
  rates = λ rate d opened. clean.rates rate d.0 opened;
  flushes = λ d opened. clean.flushes d.0 opened;
}

module _ (S : SerialPort) {H : Type 0} where
  abbrev pub written : Logged S H → List (List ℕ)
  written t = t.device.1

  pub shutdown-written : (t : Logged S H) → written (shutdown (recorded S) t) ≡ written t
  unfolding shutdown
  shutdown-written t = ground arith

  -- An open port to which these frames were given.
  pub record Wrote (frames : List (List ℕ)) (t : Logged S H) : Type 0 where
    pub ready : IsReady t
    pub opened : S.is_open t.device.0 ≡ true
    pub frames_eq : written t ≡ frames

  take_ack-Wrote :
      (frames : List (List ℕ)) (expected : ℕ) (t : Logged S H)
      → Wrote frames t
      → Wrote frames (take_ack expected t).1
  take_ack-Wrote frames expected t wrote =
      subst (Wrote frames) (sym (take_ack-eq expected t)) (record {
        ready = record { waits = wrote.ready.waits; bytes = wrote.ready.bytes };
        opened = wrote.opened;
        frames_eq = wrote.frames_eq;
      })

  module _ (stays : StaysOpen S) (delivers : DeliversBytes S) where
    device_after-kept :
        (t : Logged S H)
        → S.is_open t.device.0 ≡ true
        → let d = device_after (recorded S) t in (S.is_open d.0 ≡ true) × (d.1 ≡ t.device.1)
    unfolding device_after read_raw
    device_after-kept t opened = elim (Option-cases (S.bytes_available t.device.0).0) [
      | inl thrown ↦ rw (opened, read_raw, thrown) (stays.available t.device.0 opened, refl)
      | inr (n, some_n) ↦ elim (Bool-cases (n == 0)) [
        | inl empty ↦ rw (opened, read_raw, some_n, empty) (stays.available t.device.0 opened, refl)
        | inr more ↦
            rw (opened, read_raw, some_n, more)
              (
                stays.reads n t.read_timeout_ms (S.bytes_available t.device.0).1
                    (stays.available t.device.0 opened),
                refl,
              )
      ]
    ]

    -- Reading gives nothing to write.
    pub Wrote-Keeps :
        (on_message : Hook H) (frames : List (List ℕ))
        → Keeps (recorded S) on_message (Wrote frames)
    Wrote-Keeps on_message frames = record {
      reads = λ now t u wrote e.
          let d = recorded-DeliversBytes S delivers in
          let (v, ev, ready) = read-IsReady (recorded S) on_message now t d wrote.ready in
          let (es, q, _, _, _, er) = read-Received (recorded S) on_message now t d wrote.ready in
          let (opened, kept) = device_after-kept t wrote.opened in
          let after : Logged S H = record t {
            device = device_after (recorded S) t;
            rx_buffer = q;
            link = handle on_message now es t.link;
          } in
          subst (Wrote frames) (some-injective after u (sym er ∙ e)) (record {
            ready = subst IsReady (some-injective v after (sym ev ∙ er)) ready;
            opened = opened;
            frames_eq = kept ∙ wrote.frames_eq;
          });
      acks = λ expected t wrote. take_ack-Wrote frames expected t wrote;
    }

-- ===== src/Transport/Session/Closing.antt =====
-- When `Connect` and `Shutdown` of serial_transport.cpp leave the port closed.
use my_diffbot.Common.{ℕ, ◌≡◌, refl, List, true, false, Bool-cases, inl, inr}
use my_diffbot.Transport.Serial.{BaudRate, SerialPort}
use my_diffbot.Transport.{Transport, convert_baud_rate}
use my_diffbot.Transport.Session.{connect, shutdown}

-- Closing closes.
abbrev pub Closes : SerialPort → Type 0
Closes S = (d : S.Device) → S.is_open (S.close_port d) ≡ false

-- A port that opens is set up: its baud rate is accepted and its buffers are flushed; and one
-- that does not open stays closed.
pub record OpensCleanly (S : SerialPort) : Type 0 where
  pub opens :
      (path : List ℕ) (d : S.Device)
      → S.is_open d ≡ false
      → S.is_open (S.open_port path d).1 ≡ (S.open_port path d).0
  pub rates :
      (rate : BaudRate) (d : S.Device)
      → S.is_open d ≡ true
      → ((S.set_baud_rate rate d).0 ≡ true) × (S.is_open (S.set_baud_rate rate d).1 ≡ true)
  pub flushes :
      (d : S.Device)
      → S.is_open d ≡ true
      → ((S.flush_io_buffers d).0 ≡ true) × (S.is_open (S.flush_io_buffers d).1 ≡ true)

module _ (S : SerialPort) (clean : OpensCleanly S) {H : Type 0} where
  -- A call of `Connect` that fails leaves the port as it was.
  pub connect_failed :
      (t : Transport S.Device H)
      → (connect S t).0 ≡ false
      → S.is_open (connect S t).1.device ≡ S.is_open t.device
  unfolding connect
  connect_failed t failed = elim (Bool-cases t.configured) [
    | inr unset ↦ rw unset refl
    | inl set ↦ elim (Bool-cases (S.is_open t.device)) [
      | inl opened ↦ rw (set, opened) opened
      | inr closed ↦
          let (opened, d1) = S.open_port t.port t.device in
          let opens = clean.opens t.port t.device closed in
          elim (Bool-cases opened) [
            | inr refused ↦ rw (set, closed, refused) (rw refused at opens)
            | inl done ↦
                let (rated, open2) =
                  clean.rates (convert_baud_rate t.baud_rate) d1 (rw done at opens) in
                let d2 = (S.set_baud_rate (convert_baud_rate t.baud_rate) d1).1 in
                let (flushed, open3) = clean.flushes d2 open2 in
                let bad : true ≡ false = rw (set, closed, done, rated, flushed, open3) at failed in
                absurd (cc)
          ]
    ]
  ]

module _ (S : SerialPort) {H : Type 0} where
  -- A call of `Connect` that fails with an open port does not touch it.
  pub connect_failed_open :
      (t : Transport S.Device H)
      → S.is_open t.device ≡ true
      → (connect S t).0 ≡ false
      → S.is_open (connect S t).1.device ≡ true
  unfolding connect
  connect_failed_open t opened failed = elim (Bool-cases t.configured) [
    | inr unset ↦ rw unset opened
    | inl set ↦ let bad : true ≡ false = rw (set, opened) at failed in absurd (cc)
  ]

  pub shutdown_closed :
      (t : Transport S.Device H) → Closes S → S.is_open (shutdown S t).device ≡ false
  unfolding shutdown
  shutdown_closed t closes = elim (Bool-cases (S.is_open t.device)) [
    | inl opened ↦ rw opened (closes t.device)
    | inr closed ↦ rw closed closed
  ]

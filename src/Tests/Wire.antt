-- ===== src/Tests/Wire.antt =====
-- A serial device for the tests: bytes that wait to be read, bytes that were written, and the answer
-- that the other end sends to a write. `rated` tells whether a baud rate is accepted.
use my_diffbot.Common.{
  subst, ℕ, ◌+◌, ◌-◌, ◌*◌, ◌/◌, ◌^◌, ◌==◌, if◌then◌else◌, arith, List, [], ◌∷◌, ◌++◌, Bool, true,
  false, not, some, length, take, drop, IsBytes, u8,
}
use mathlib.Core.Option.{some-injective}
use my_diffbot.Common.Int.{ℤ, pos, negsuc, ltb_ℤ, eqb_ℤ, pos_part, neg_part, negate, sub_ℕ}
use my_diffbot.Double.{Double}
use my_diffbot.Transport.Serial.{SerialPort, Hook}
use my_diffbot.Transport.{Transport}
use my_diffbot.Transport.Read.Received.{DeliversBytes}
use my_diffbot.Transport.Recorded.{StaysOpen}

pub record Wire : Type 0 where
  pub opened : Bool
  pub rated : Bool
  pub incoming : List ℕ
  pub answer : List ℕ
  pub outgoing : List ℕ

abbrev to_bytes : List ℕ → List ℕ
to_bytes [] = []
to_bytes (b ∷ bs) = u8 b ∷ to_bytes bs

to_bytes-IsBytes : (bs : List ℕ) → IsBytes (to_bytes bs)
to_bytes-IsBytes [] = tt
to_bytes-IsBytes (b ∷ bs) = (omega arith, to_bytes-IsBytes bs)

abbrev pub wire_port : SerialPort
wire_port = record {
  Device = Wire;
  is_open = λ d. d.opened;
  open_port = λ path d. (true, record d { opened = true });
  set_baud_rate = λ rate d. (d.rated, d);
  flush_io_buffers = λ d. (true, d);
  close_port = λ d. record d { opened = false };
  bytes_available = λ d. (some (length d.incoming), d);
  read_bytes = λ n timeout d.
      (some (to_bytes (take n d.incoming)), record d { incoming = drop n d.incoming });
  write_bytes = λ bytes d.
      (true, record d { incoming = d.incoming ++ d.answer; outgoing = d.outgoing ++ bytes });
}

pub wire_port-DeliversBytes : DeliversBytes wire_port
wire_port-DeliversBytes n timeout d raw e =
    subst IsBytes (some-injective (to_bytes (take n d.incoming)) raw e)
      (to_bytes-IsBytes (take n d.incoming))

pub wire_port-StaysOpen : StaysOpen wire_port
wire_port-StaysOpen = record {
  available = λ d opened. opened;
  reads = λ n timeout d opened. opened;
  writes = λ bytes d opened. opened;
}

-- A microsecond from the reading for the deadline to the first test, and five milliseconds between
-- two tests.
abbrev pub five_ms : ℕ → ℕ
five_ms k = if k == 0 then 0 else 1_000 + (k - 1) * 5_000_000

-- A subclass that counts its messages.
abbrev pub count_messages : Hook ℕ
count_messages now msg_id payload s = record s { state = s.state + 1 }

abbrev pub transport : {Device H : Type 0} → H → Device → Transport Device H
transport h d = record {
  device = d;
  rx_buffer = [];
  port = 47 ∷ [];
  baud_rate = 57600;
  read_timeout_ms = 100;
  configured = true;
  firmware_version = 0;
  link = record {
    received_message_count = 0;
    crc_error_count = 0;
    ack_received = false;
    pending_ack_msg_id = 0;
    pending_ack_status = 0;
    shared = record { last_heartbeat_time = 0; state = h };
  };
}

abbrev pub receiving : List ℕ → Wire
receiving bytes = record {
  opened = true;
  rated = true;
  incoming = bytes;
  answer = [];
  outgoing = [];
}

-- Whole numbers in the place of `double`.
abbrev pub whole : Double
whole = record {
  F = ℤ;
  literal = λ m e. if e == 0 then pos m else pos 0;
  of_int = λ a. a;
  add = λ a b. sub_ℕ (pos_part a + pos_part b) 0;
  sub = λ a b. sub_ℕ (pos_part a) (pos_part b);
  mul = λ a b. pos (pos_part a * pos_part b);
  div = λ a b. pos (pos_part a / pos_part b);
  trunc = λ a. a;
  m_pi = pos 3;
  lt = ltb_ℤ;
  le = λ a b. not (ltb_ℤ b a);
  eq = eqb_ℤ;
  is_finite = λ a. true;
}

abbrev times : ℤ → ℤ → ℤ
times a b =
    sub_ℕ (pos_part a * pos_part b + neg_part a * neg_part b)
      (pos_part a * neg_part b + neg_part a * pos_part b)

-- A quotient without its fraction.
abbrev over : ℤ → ℕ → ℤ
over a n = sub_ℕ (pos_part a / n) (neg_part a / n)

abbrev over_ℤ : ℤ → ℤ → ℤ
over_ℤ a (pos n) = over a n
over_ℤ a (negsuc n) = negate (over a (n + 1))

-- Millionths in the place of `double`.
abbrev pub micro : Double
micro = record {
  F = ℤ;
  literal = λ m e. pos (m * 1_000_000 / 10 ^ e);
  of_int = λ a. times a (pos 1_000_000);
  add = λ a b. sub_ℕ (pos_part a + pos_part b) (neg_part a + neg_part b);
  sub = λ a b. sub_ℕ (pos_part a + neg_part b) (neg_part a + pos_part b);
  mul = λ a b. over (times a b) 1_000_000;
  div = λ a b. over_ℤ (times a (pos 1_000_000)) b;
  trunc = λ a. over a 1_000_000;
  m_pi = pos 3_141_592;
  lt = ltb_ℤ;
  le = λ a b. not (ltb_ℤ b a);
  eq = eqb_ℤ;
  is_finite = λ a. true;
}

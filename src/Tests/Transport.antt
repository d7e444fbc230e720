-- ===== src/Tests/Transport.antt =====
-- The transport over the test device.
use my_diffbot.Common.{
  ℕ, suc, ◌<◌, ◌≡◌, inl, refl, arith, List, [], ◌∷◌, ◌++◌, length, some, true, false, IsBytes,
}
use my_diffbot.Protocol.MsgId
use my_diffbot.Protocol.AckStatus
use my_diffbot.Protocol.AckStatus.{AckStatus}
use my_diffbot.Protocol.Crc.{crc_bit, crc_bits, crc_byte, crc_bytes, crc16_ccitt}
use my_diffbot.Protocol.Frame.{build_frame}
use my_diffbot.Protocol.Frame.Cases.{IsPending}
use my_diffbot.Protocol.Stream.{Event, Message, build_frames, events, Decodes}
use my_diffbot.Transport.{Transport}
use my_diffbot.Transport.Session.{connect}
use my_diffbot.Transport.Session.Opening.{connect_retry}
use my_diffbot.Transport.Read.{feed, read_raw, read}
use my_diffbot.Transport.Read.Frames.{handle}
use my_diffbot.Transport.Read.Chunks.{IsReady}
use my_diffbot.Transport.Read.Received.{
  arrived, device_after, feed-append, feed-build_frames, read-Received,
}
use my_diffbot.Transport.Ack.{wait_for_ack}
use my_diffbot.Transport.Ack.Ends.{IsTicking, Returned, wait_for_ack-Returned}
use my_diffbot.Transport.Ack.Answers.{
  wait_for_ack_answered, wait_for_ack_stale, wait_for_ack-timeout,
}
use my_diffbot.Tests.Wire.{
  Wire, wire_port, wire_port-DeliversBytes, five_ms, count_messages, transport, receiving,
}

abbrev silent : Transport Wire ℕ
silent = transport 0 (receiving [])

silent-IsReady : IsReady silent
silent-IsReady = record { waits = tt; bytes = tt }

abbrev two_messages : List Message
two_messages = (0x20, 7 ∷ 8 ∷ []) ∷ (0x10, 9 ∷ []) ∷ []

build_frames-IsBytes : IsBytes (build_frames two_messages)
unfolding build_frame crc16_ccitt crc_bytes crc_byte crc_bits crc_bit
build_frames-IsBytes = omega arith

feed-build_frames_example :
    feed count_messages 1
      (suc (length (build_frames two_messages)))
      0
      (build_frames two_messages)
      silent
    ≡ some (record silent {
      rx_buffer = [];
      link = handle count_messages 1 (events two_messages) silent.link;
    })
feed-build_frames_example =
    feed-build_frames count_messages 1 two_messages silent refl (omega arith, (omega arith, tt))
      build_frames-IsBytes

feed-append_example :
    (u : Transport Wire ℕ) × (feed count_messages 1 3 0 (0xAA ∷ 0x20 ∷ []) silent ≡ some u)
    × (feed count_messages 1 3 0 (0 ∷ 1 ∷ []) u
        ≡ feed count_messages 1 5 0 (0xAA ∷ 0x20 ∷ 0 ∷ 1 ∷ []) silent)
feed-append_example =
    feed-append count_messages 1 (0xAA ∷ 0x20 ∷ []) (0 ∷ 1 ∷ []) silent silent-IsReady (omega arith)
      (omega arith)

abbrev hearing : Transport Wire ℕ
hearing = transport 0 (receiving (1 ∷ 2 ∷ 0xAA ∷ 3 ∷ []))

read-Received_example :
    (es : List Event) × (q : List ℕ) × Decodes (hearing.rx_buffer ++ arrived wire_port hearing) es q
    × IsPending q
    × (length q < 260)
    × (read wire_port count_messages 1 hearing
        ≡ some (record hearing {
          device = device_after wire_port hearing;
          rx_buffer = q;
          link = handle count_messages 1 es hearing.link;
        }))
read-Received_example =
    read-Received wire_port count_messages 1 hearing wire_port-DeliversBytes
      (record { waits = tt; bytes = tt })

pub five_ms-IsTicking : IsTicking five_ms
five_ms-IsTicking = record { starts = omega arith; sleeps = λ k later. ground arith }

wait_for_ack-Returned_example :
    Returned (wait_for_ack wire_port count_messages five_ms 3 MsgId.reset 10 hearing)
wait_for_ack-Returned_example =
    wait_for_ack-Returned wire_port count_messages five_ms 2 MsgId.reset 10 hearing
      five_ms-IsTicking wire_port-DeliversBytes (record { waits = tt; bytes = tt }) (omega arith)

wait_for_ack-timeout_example :
    wait_for_ack wire_port count_messages five_ms 3 MsgId.reset 10 silent
    ≡ some (AckStatus.timeout, silent)
wait_for_ack-timeout_example =
    wait_for_ack-timeout wire_port count_messages five_ms 2 MsgId.reset 10 silent five_ms-IsTicking
      refl (inl refl) (omega arith)

-- An ACK for RESET, time stamp zero, with status INVALID_PARAM.
abbrev refusal : List ℕ
refusal = 0 ∷ 0 ∷ 0 ∷ 0 ∷ 0 ∷ 0 ∷ 0 ∷ 0 ∷ MsgId.reset ∷ AckStatus.invalid_param ∷ []

abbrev refused : Transport Wire ℕ
refused = transport 0 (receiving (build_frame MsgId.ack refusal))

arrived-refused : arrived wire_port refused ≡ build_frame MsgId.ack refusal
unfolding arrived read_raw build_frame crc16_ccitt crc_bytes crc_byte crc_bits crc_bit
arrived-refused = refl

wait_for_ack_answered_example :
    (status : AckStatus) × (u : Transport Wire ℕ) × (wait_for_ack wire_port count_messages five_ms 1
        MsgId.reset 10 refused
      ≡ some (status, u))
    × (status ≡ AckStatus.invalid_param)
    × (u.firmware_version ≡ 0)
    × (u.ack_received ≡ false)
wait_for_ack_answered_example =
    wait_for_ack_answered wire_port count_messages five_ms 0 MsgId.reset 10 refusal refused
      wire_port-DeliversBytes refl arrived-refused (omega arith) (omega arith) refl (omega arith)

-- An earlier RESET was answered too late, with status OK.
abbrev late : Transport Wire ℕ
late = record silent {
  link = record silent.link {
    ack_received = true;
    pending_ack_msg_id = MsgId.reset;
    pending_ack_status = AckStatus.ok;
  };
}

arrived-late : arrived wire_port late ≡ []
unfolding arrived read_raw
arrived-late = refl

wait_for_ack_stale_example :
    wait_for_ack wire_port count_messages five_ms 1 MsgId.reset 10 late
    ≡ some (
      AckStatus.ok,
      record late {
        device = device_after wire_port late;
        link = record late.link { ack_received = false };
      },
    )
wait_for_ack_stale_example =
    wait_for_ack_stale wire_port count_messages five_ms 0 MsgId.reset 10 late refl refl
      (omega arith) arrived-late (omega arith)

-- A device that opens and refuses its baud rate.
abbrev odd : Wire
odd = record { opened = false; rated = false; incoming = []; answer = []; outgoing = [] }

abbrev odd_transport : Transport Wire ℕ
odd_transport = transport 0 odd

connect_retry_example :
    let u : Transport Wire ℕ = transport 0 (record odd { opened = true }) in
    (connect wire_port odd_transport ≡ (false, u)) × (connect wire_port u ≡ (true, u))
connect_retry_example =
    connect_retry wire_port odd_transport (record odd { opened = true })
      (record odd { opened = true }) refl refl refl refl refl

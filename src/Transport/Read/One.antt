-- ===== src/Transport/Read/One.antt =====
-- A call of `read` at which one frame arrives.
use my_diffbot.Common.{ℕ, ◌<◌, ◌≡◌, ◌∙◌, List, [], ◌∷◌, ◌++◌, append-nil, some, length}
use my_diffbot.Protocol.Frame.{build_frame}
use my_diffbot.Protocol.Stream.{message, Decodes, Decodes-build_frames}
use my_diffbot.Transport.Serial.{SerialPort, Hook}
use my_diffbot.Transport.{Transport, dispatch}
use my_diffbot.Transport.Read.{read}
use my_diffbot.Transport.Read.Frames.{handle}
use my_diffbot.Transport.Read.Received.{
  DeliversBytes, arrived, device_after, arrived-IsBytes, read-feed, feed_all-Decodes,
}

module _ (S : SerialPort) {H : Type 0} (on_message : Hook H) where
  open S use {Device}

  -- One frame that arrives at an empty buffer.
  pub read_one :
      (now msg_id : ℕ) (payload : List ℕ) (t : Transport Device H)
      → DeliversBytes S
      → t.rx_buffer ≡ []
      → length payload < 256
      → arrived S t ≡ build_frame msg_id payload
      → read S on_message now t
        ≡ some (record t {
          device = device_after S t;
          rx_buffer = [];
          link = dispatch on_message now msg_id payload t.link;
        })
  unfolding handle
  read_one now msg_id payload t delivers empty fits came =
      let one = Decodes-build_frames ((msg_id, payload) ∷ []) (fits, tt) in
      let whole : Decodes (t.rx_buffer ++ arrived S t) (message msg_id payload ∷ []) [] =
        rw (came, empty) (rw append-nil at one) in
      read-feed S on_message now t
      ∙ feed_all-Decodes on_message now (arrived S t) (record t { device = device_after S t })
          (record { waits = rw empty tt; bytes = rw empty tt }) (arrived-IsBytes S t delivers) whole

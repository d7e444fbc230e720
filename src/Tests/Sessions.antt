-- ===== src/Tests/Sessions.antt =====
-- Sessions of the plugin over a test device that accepts every baud rate.
use my_diffbot.Common.{ℕ, List, [], true, false}
use my_diffbot.Common.Int.{ℤ}
use my_diffbot.Transport.Serial.{SerialPort}
use my_diffbot.Kestrel.{initial}
use my_diffbot.System.Component.{System}
use my_diffbot.System.Runs.Line.{Session}
use my_diffbot.Tests.Wire.{Wire, wire_port, transport, receiving, micro}
use my_diffbot.Tests.Callbacks.{idle_over}

abbrev clean_port : SerialPort
clean_port = record wire_port { set_baud_rate = λ rate d. (true, d) }

-- The port is closed, and nothing was given to it.
abbrev asleep : System (Wire × List (List ℕ)) ℤ
asleep = idle_over (transport (initial micro) (record (receiving []) { opened = false }, []))

-- ===== src/Lib.antt =====
-- The serial driver of the robot and its ros2_control plugin: what crosses the line between the
-- host and the motor board, how received bytes become feedback, how commands are sent and answered,
-- and how the plugin turns feedback into states and commands into frames.
--
-- The parts. `binary_protocol` defines the frames [0xAA][id][length][payload][checksum] and the
-- packed structs they carry. `SerialTransport` owns the serial port and a receive buffer: `Read`
-- takes what has arrived, feeds it to the buffer in chunks and calls `ExtractFrames`, which
-- dispatches every valid frame to the hook `OnMessageReceived` after it has noted an ACK.
-- `WaitForAck` polls `Read` until the ACK of a command is noted or a deadline passes. `Kestrel` is
-- the subclass for the motor board: its hook turns messages into feedback, and its commands write
-- one frame and, but for velocity and LED, wait for the ACK. `My_diffbotSystemHardware` is the
-- plugin: it owns a `Kestrel` and the values of the state and command interfaces. Its lifecycle
-- callbacks connect, shake hands and configure the board; in each control cycle `read` turns the
-- feedback into odometry, speed and IMU states, and `write` sends the gains and the timeout when
-- they change, the LED frame when it changes and once a second, and the wheel speed unless the
-- robot stands still.
--
-- The files, each with the code that it models (paths below my_diffbot_hardware_interface):
--   Common             native numbers, machine words, integers, lists, bits, bytes; no code
--   Double             the `double` arithmetic that the code does, as a parameter
--   Protocol/Crc       `crc16_ccitt`, src/binary_protocol.cpp
--   Protocol/Frame     `BuildFrame` and `ExtractFrame`, src/binary_protocol.cpp
--   Protocol/Stream    the specification: a grammar of frames, garbage and corrupt frames
--   Protocol/MsgId, AckStatus, Payload
--                      ids, statuses and packed structs, include/my_diffbot_hardware_interface/
--                      binary_protocol.hpp; the copy into bytes is `ToBytes` of kestrel_transport.hpp
--   Protocol/Led       `LedOutput` and `ResolveLed`, binary_protocol.hpp
--   Transport          the members of `SerialTransport` and the body of `ExtractFrames`,
--                      include/my_diffbot_hardware_interface/serial_transport.hpp and
--                      src/serial_transport.cpp
--   Transport/Serial   LibSerial and the hook, as parameters
--   Transport/Read     `Read` and `ExtractFrames`
--   Transport/Session  `Configure`, `Connect`, `Reset`, `Shutdown`, `WriteCommand`,
--                      `IsHeartbeatHealthy`
--   Transport/Ack      `WaitForAck`
--   Transport/Recorded a port that keeps the frames given to it to write, for the theorems on what
--                      is sent
--   Kestrel            the feedback and `OnMessageReceived`, src/kestrel_transport.cpp
--   Kestrel/Commands   the commands, src/kestrel_transport.cpp
--   System             the plugin, src/my_diffbot_system.cpp and include/my_diffbot_hardware_interface/
--                      my_diffbot_system.hpp; its state is the record of System/Component
--   System/Interfaces  the named values that the base class keeps
--   System/Clamp       `ClampCast`
--   System/Wheels      `ReadWheels`
--   System/Imu         `ReadImu`
--   System/Drive       the wheel commands of `write`
--   System/Tuning      `WriteTuning`
--   System/Led         `WriteLed`
--   System/Init        `on_init`
--   System/Activate    `HandshakeWithRetry` and `on_activate`
--   System/Lifecycle   `on_configure`, `on_deactivate` and `on_cleanup`
--   System/Cycle       `read` and `write`
--   System/Runs        the callbacks as a list of events, and in System/Runs/Line what they may send, as a
--                      step relation of a line that is open or closed
--   Tests              runs at concrete inputs
-- The children of a module hold its theorems, and are named for what they show.
--
-- The model. A vector of bytes is a list of numbers below 256, an unsigned integer a number with
-- its wrap-around written out, a signed integer a member of `ℤ`, a time a number of nanoseconds.
-- The state is passed from call to call; what a device will still send is part of the device, and a
-- call of LibSerial returns the device after it, with `false` or `none` for an exception. Where a
-- theorem needs more of a device, it says so: `DeliversBytes`, that what is read are bytes, and
-- `StaysOpen`, that reading and writing do not close it, `Closes`, that closing closes it, and
-- `OpensCleanly`, that a port which opens can be set up, and one that does not stays closed. A
-- clock is a function from the number of the reading, and `IsTicking` says that each round of
-- `WaitForAck` sleeps five milliseconds before the next test; between the reading for the deadline
-- and the first test there is no sleep.
--
-- What is sent is specified by `Command`, a command with its arguments: Kestrel/Commands/Written
-- gives its frame, and System/Cycle/Wanted, System/Activate/Sent and System/Lifecycle/Sent the
-- commands of one callback.
--
-- In the plugin, the component's clock stands still within one call, and the clocks of each wait
-- are arguments of the call. The interfaces of a kind are a list of names, whose order is that of
-- the map. The publisher of the diagnostics exists from `on_configure` to `on_cleanup`; a `read`
-- that uses it without one dereferences a null pointer, and has no result in the model. The
-- controller manager reads only from a configured component, which is the condition `IsOrdered` on
-- a list of events. `std::stoi` and what the base class says of the description are parameters.
-- `double` is a parameter with no laws; a theorem names those it uses: `IsEqReflexive`,
-- `IsNoWindow`, `IsCast`.
--
-- Bounds and fuel. The loop of `ExtractFrames` has one more round than the buffer has bytes, and
-- the loop of `Read` one more than it has received: each round consumes at least one. The fuel of a
-- wait of t milliseconds is above t / 5, as a round takes five; an activation waits up to twelve
-- times, each with that fuel. The buffer is limited to 1024 bytes; between two calls it holds less
-- than the longest frame of 260 bytes, so that with a chunk of 256 the limit is not met.
--
-- Not modelled. Logging, and the hooks that only name a logger; the atomic access to one flag; the
-- time that passes within one call of `Read`; casts of a `double` out of the range of its integer
-- type, and the overflow of a difference of ticks, which are undefined; the access to an interface
-- that does not exist. Of the plugin, the publisher of the diagnostics but for whether it exists
-- (what is published is returned), the texts of its numbers and the registrations for
-- introspection. Launch files, descriptions, measuring scripts and containers have no part in the
-- driver.
pub mod Common
pub mod Double
pub mod Protocol
pub mod Transport
pub mod Kestrel
pub mod System
pub mod Tests

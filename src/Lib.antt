-- ===== src/Lib.antt =====
-- livox-mid360-core, a C++ library for the Livox Mid-360 LiDAR: a model of its parts, with sockets,
-- files and clocks as parameters, and the theorems about them.
--
-- A LiDAR talks to its host in UDP datagrams. Command frames carry requests, acknowledgements and
-- pushes whose payloads are lists of keys and values; data packets carry point samples. The protocol
-- layer turns bytes into structs and back, the frame assembler cuts the stream of point packets into
-- frames with one time base and one point format each, and a device delivers the frames.
--
-- - Prelude: names of the libraries, lists over the native numbers, exclusive or, and `Result`:
--   `ok`, `err` for a returned error, and `fault` for an access outside a buffer, which is undefined
--   behaviour in C++. A function that is proved never to be `fault` is memory safe.
-- - Bytes: include/livox/mid360/bytes.hpp, `read_le` and `write_le` by the width in bytes, on a
--   little-endian host; a span is a list of bytes.
-- - Crc: include/livox/mid360/crc.hpp, the two tables and the two incremental checksums.
-- - Protocol: include/livox/mid360/protocol.hpp and src/protocol.cpp. Types has the constants and the
--   structs, CommandFrame `parse_command_frame`, `encode_command_frame` and `build_command_frame`,
--   DataPacket `parse_data_packet`, the sample decoders and `sample_timestamp_ns`, KeyValues the
--   lists and the parameter requests, Acks the other requests and the acknowledgements.
-- - FirmwareLog: include/livox/mid360/firmware_log.hpp and src/firmware_log.cpp.
-- - FrameAssembler: src/frame_assembler.hpp and src/frame_assembler.cpp. DropCounter, TimeMapper and
--   Points are the parts of those names; State is the class with its operations, and Push is
--   `FrameAssembler::push` in the stages of its body. Operations take the state and return the next.
-- - Keys: include/livox/mid360/keys.hpp and src/keys.cpp, the numbers and lengths of the parameter keys
--   (Keys), and the encoders and decoders of values of one number (Scalars) and of several (Values).
-- - Queue: `BoundedQueue` of include/livox/mid360/frame.hpp; each operation is one step, since it holds
--   the mutex, and a `pop` is its step after the wait.
-- - Tag: include/livox/mid360/tag.hpp.
-- - Transport: the addresses, errors and datagrams of include/livox/mid360/transport.hpp.
-- - Session: src/session.cpp with include/livox/mid360/session.hpp and src/session_detail.hpp. What
--   one datagram is (Acks), `Session::request` (Request), the typed commands (Commands), connecting
--   and the wait for a working state (Connect), discovery (Discover), and which LiDAR a session is
--   with (Peer). What the sockets, the clock and other threads do is an argument: how each send and
--   each wait ends, and what is read after it; the end of a list of waits is the deadline, so no fuel
--   is needed. The frames sent are kept in the session.
-- - Recording: src/lvx2.cpp with include/livox/mid360/lvx2.hpp. A file is the list of its bytes, and what
--   the C library does on it is the parameter `Stdio`; the conversion of spherical samples is over the
--   parameter `Doubles`, and memory for a frame is taken to be had. The writer's state and bytes
--   (Writer), its operations (Write), the reader (Reader), the layout of the file (Layout), how packages
--   that are written are read (Read, ReadAll, Written, WriteAll, RoundTrip), and the header in the same
--   way (Header, Devices, Opening). The fuel of the reader's loop is the bytes ahead and two: each round
--   but the last takes a frame header of 24 bytes from the file.
-- - Hms: include/livox/mid360/hms.hpp, the split of a health code. DebugData: the control request of
--   src/debug_data.cpp. Event: the events, errors and statistics of include/livox/mid360/event.hpp.
-- - Info: src/lidar_info.cpp, what the keys and values of an acknowledgement or a push say of a LiDAR.
-- - Config: src/config.cpp, the entries that a host writes to a LiDAR and `apply_host_setup`; the checks
--   of src/keys.cpp that need no codec are in Keys/Checks.
-- - Context: src/context.cpp with src/context_impl.hpp, the registry of devices and the receive thread.
--   Threads are a list of steps: what is done under the mutex is one step, `remove` is its first half
--   and the condition that it waits for, and a round of draining a socket is one step, since the
--   receive thread reads the registry again right before. `generation` is taken not to wrap.
-- - Device: src/device.cpp. Connection is the connection state machine, and Connection/Threads every
--   thread's steps on the fields that they share, in any order, where a loss is its single steps and
--   the end of an attempt is one. Push is the state pushes and their events, Log the log port, Streams the data ports and
--   the timers with the requests of other threads as an argument, Commands the commands under
--   `cmd_mutex` over the model of the session, and Absorb the setup that a reconnect replays. Commands/
--   LogControl and Logging are the commands on the log port, whose acknowledgements come over the receive
--   thread. Open is `Device::open`, and Reconnect an attempt to find a lost LiDAR again, on the model of
--   the session, of discovery and of the registry. The loop of `settings` has one round more than there
--   are keys, since each round but the last drops a key; the loop that skips missed periods has one for
--   each nanosecond that the timer is late and one more, since a period is at least one.
-- - Tests: runs on concrete bytes, and the theorems at concrete arguments.
--
-- Integers of a fixed width are natural numbers with the wrap-around written out. `float` is a
-- parameter (the record `Floats`), of which nothing is assumed; the `float` fields of an IMU sample
-- are their 32 bits. Loops without a fuel above are structural recursions: the loop over
-- the entries of a key/value list runs on `key_num`, the loop over samples on `dot_num`.
--
-- Not modelled: the system calls of sockets, threads and files, and text for people; of a device,
-- the destructor, the worker thread around its attempts, and what a callback does; of the receive thread,
-- the calls of the timers, which Device has on their own; the player of recordings, the extrinsic
-- matrices, the tools and the examples.
pub mod Prelude
pub mod Bytes
pub mod Crc
pub mod Protocol
pub mod FirmwareLog
pub mod Keys
pub mod Tag
pub mod FrameAssembler
pub mod Queue
pub mod Config
pub mod Context
pub mod DebugData
pub mod Device
pub mod Event
pub mod Hms
pub mod Info
pub mod Recording
pub mod Session
pub mod Transport
pub mod Tests

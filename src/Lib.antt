-- ===== src/Lib.antt =====
-- A verification library for rtstream, a real-time video streaming program in C++: a server that
-- captures, encodes and sends frames over TCP, RTP or its own UDP protocol, and a client that
-- receives, decodes and shows them. The library models the part of it that moves frames over an
-- unreliable network. Paths are from the repository's root.
--
-- The parts, the files here, and the code:
--   Prelude    shared names; lists, integers, bitwise operations, texts and ordered maps over the
--              native numbers
--   Wire       `src/common/media_types.h` (EncodedFrame, PayloadType, UdpHeader, load_be64,
--              store_be64) and the TCP header of `src/transport/transport_server.h`; Wire/RoundTrip
--              has what is read back
--   Stats      the counters of `src/stats/metrics.h`; Stats/Latency has `add_e2e_ms` and `latency`
--   TestSource `src/capture/test_source.h`: the sizes of `start`, the beat and the picture of `loop`,
--              and `draw_second_digits`; Planes and Chroma have its loops, Digits the digits, Shows
--              the whole picture
--   Queue      `src/common/thread_safe_queue.h`: each operation is one step under the mutex, and
--              `waits` is the outcome where the code would block; Queue/History has runs of them
--   Fec        `src/transport/fec.h`: `fec_generate` and `fec_recover`
--   Nack       `src/transport/nack_manager.h`: `remember`, `find`, `on_nack`; Nack/Window compares
--              the cache with the list of all packets sent, Nack/Requests reads payloads
--   Jitter     `src/receiver/jitter_buffer.h`: Jitter/State the members, Jitter/Push and Jitter/Pop
--              the two calls, Jitter/Missing the requests for missing numbers; Bounds, Tune,
--              Delivery and Run have the invariants, Stall the stop behind the wrap of RTP numbers
--   Sim        `src/transport/loss_simulator.h`: `inject`, and a round of `drain_loop`
--   UdpServer  `src/transport/udp_server.h`: `send_frame` with its lambda `emit`, and `broadcast`;
--              UdpServer/Control has the rounds of `recv_loop` and `stats_loop`
--   UdpReceiver  `src/receiver/udp_receiver.h`: `on_media` with `try_finalize`, `finish` and
--              `send_nack`; UdpReceiver/Clock has `extend_capture_us`, UdpReceiver/Receive the rounds
--              of `recv_loop`, `ping_loop` and `jb_loop`; Run and Whole take the datagrams
--              with the fragments of a frame, without the recovery packet
--   TcpServer  `src/transport/tcp_server.h`: `broadcast`, and the rounds of `send_loop` and
--              `stats_loop` for each client
--   TcpClient  `src/receiver/tcp_client.h`: `read_all` and `loop`; TcpClient/Link puts it at the
--              other end of the server's wire
--   Rtp        how a frame becomes RTP packets (`src/transport/rtp_server.h`: `next_nalu`, the loops
--              of `send_frame`, `write_rtp_header`) and packets a frame
--              (`src/receiver/rtp_receiver.h`: `parse_rtp`, the loop of `emit`)
--   RtpServer  the rest of `src/transport/rtp_server.h`: `send_frame`, `broadcast`, and the rounds of
--              `recv_loop` and `stats_loop`
--   RtpReceiver  the rest of `src/receiver/rtp_receiver.h`: `emit` and recovery; RtpReceiver/Assembly
--              has `finalize_frame`, `expire_zombies` and the rounds of `assemble_loop`,
--              RtpReceiver/Receive those of `recv_loop` and `ping_loop`; Run and Whole take the packets
--              of a frame
--   Common     `src/common/crc32.h`, `src/common/sha1.h` (`sha1`, `base64_encode`) and
--              `src/common/thread_pool.h`
--   WsServer   `src/web/ws_server.h`: the frames of `broadcast`, the inner loop of `client_loop`, and
--              `read_line`; WsServer/Handshake has `adopt` and `do_handshake`
--   HttpServer  `src/web/http_server.h`: `read_request`, `handle`, `handle_static`, `send_simple`; its
--              `read_line` is that of `src/web/ws_server.h`, letter by letter
--
-- How they interact: `UdpServer.broadcast` cuts an encoded frame into fragments, makes one recovery
-- packet (Fec) for them, writes each behind a header (Wire), gives each to the cache (Nack) and to
-- the simulated network (Sim), which gives it to the socket or holds it back. A NACK datagram
-- makes Nack look into the cache, and what it finds goes through Sim again. The receiver's `on_media`
-- puts fragments into groups, recovers one that is missing or asks for what is, pushes what
-- it has assembled into the jitter buffer and takes it out in order. The RTP pair works alike, with
-- packets where the UDP pair has fragments; there the jitter buffer orders packets, and frames
-- are put together behind it. The TCP pair needs none of this: length, header and data of each
-- frame go through the socket, which takes and gives bytes in parts of any size.
--
-- Conventions: a C++ object is a record and a method is a function from the record to the new one;
-- a callback is the list of its calls; the global counters are a record that goes through.
-- The clock is an argument. Integers of the source are native numbers with their wrap-around
-- written out; `int64_t` is the type of integers, in sums that stay within 64 bits. A loop is a
-- recursion over the list or over the rounds left. The two loops of `extend_capture_us` have
-- fuel, two rounds, and never need more than one, since the candidate is less than 2^32 us off; the loops of `RtpServer::send_frame` have as
-- many rounds as there are bytes, of which each round takes one at least, and so has the loop of
-- `WsServer::client_loop`. The loops over the lines of a request have as many rounds as there are
-- characters, of which a line takes one at least; the padding loop of `sha1` has 64, and needs at most
-- 63; a number is written with at most 20 digits, which 64 bits never exceed. A network of a run is the
-- order of the steps, a socket is the list of what its calls give.
--
-- Parameters: the floating-point numbers of the jitter estimate are an interface (Jitter/Double)
-- of which nothing is assumed; the simulator's random numbers are any sequence of draws;
-- what the floating-point
-- functions give for a moment of the test picture is a record of numbers, and the selection of a
-- sample and the places of the percentiles are functions that are given; the text of the statistics
-- is any byte string; a file system is a function from names to contents; the eight bytes of a clock
-- in the machine's own order are read by a function that is given.
--
-- Not modelled: sockets, threads and condition variables (only their effect on the state), logging
-- and JSON; encoders, decoders, cameras, rendering, the packets of the web preview, and the
-- options of the two programs.
pub mod Prelude
pub mod Wire
pub mod Stats
pub mod Queue
pub mod Fec
pub mod Nack
pub mod Jitter
pub mod Sim
pub mod UdpServer
pub mod UdpReceiver
pub mod TcpServer
pub mod TcpClient
pub mod Rtp
pub mod RtpServer
pub mod RtpReceiver
pub mod Common
pub mod WsServer
pub mod HttpServer
pub mod TestSource

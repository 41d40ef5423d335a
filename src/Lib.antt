-- ===== src/Lib.antt =====
-- The sender of display-bridge: it captures a screen, encodes it with VA-API, keeps the encoded
-- frames in a ring buffer, and streams them to a receiver over SRT, from where it gets input events.
--
-- The parts and the files that model them (paths from the repository's root):
--
-- Prelude: comparisons, words, lists and integers that the modules share.
-- Bitstream: the bit writer of ubuntu/src/encoder.c, `bs_init` to `bs_bytes_written`. A writer takes
--   the stream to the stream after it, and `none` is a store outside the buffer. Bitstream/View says
--   which bits a stream holds, Bitstream/PutBit and Bitstream/Emit what the writers append,
--   Bitstream/Golomb and Bitstream/Syntax are the parsing processes of
--   H.265, Bitstream/Trailing closes a stream, Bitstream/Sizes bounds lengths.
-- Nal: `write_start_code_and_nalu_header` and `add_emulation_prevention`; Nal/Escape has the
--   receiver's side of the latter.
-- Headers: `write_profile_tier_level`, `write_vps`, `write_sps`, `write_pps` and
--   `write_slice_header`, one call after the other as in the source. Headers/Tables states the syntax
--   that H.265 has for them, and Headers/Crop the parser and the cropping rule for the SPS.
-- Packed: the bytes that `submit_packed_sequence_headers` and `submit_packed_slice_header` assemble.
-- Encoder: the fields of `db_encoder_t` that are numbers, and `db_encoder_set_bitrate`.
-- Params: `fill_seq_param`, `fill_pic_param` and `fill_slice_param`, what the driver is told;
--   Params/Agreement and Params/PictureSet compare it with the packed headers.
-- Colour: the conversion of one pixel in `db_encoder_encode_bgrx`; Colour/Picture has its loops, as
--   the stores that they make, and Colour/Plane and Colour/Conversion what these leave in the buffer.
-- Gop: the IDR period, the choice of surfaces in `encode_surface`, the state that it leaves, and
--   `db_encoder_force_idr`.
-- Ring: `ring_buffer_t` and the functions `ring_*` of ubuntu/src/main.c. Every function holds the
--   mutex, so a history of both threads is a list of calls (Ring/Run). Ring/Queue is the queue that
--   the ring stands for.
-- Calls: code that calls libraries of which only success or failure matters, as a tree with a branch
--   for every answer; a run takes its answers from a function. Calls/Observer follows a run by the
--   rules of a library, and tests a whole tree at once; Calls/Held is what is acquired and released.
-- Va: the calls of VA-API, of the DRM node and of `malloc` in ubuntu/src/encoder.c. Va/Submit has
--   `submit_packed_header` to `submit_framerate_param`, Va/Surface `encode_surface`, Va/Frames
--   `db_encoder_encode_dmabuf`, `_nv12`, `_bgrx` and `db_encoder_release_frame`, Va/Device
--   `db_encoder_init` and `db_encoder_destroy`. Va/Rules has the rules of the libraries, Va/Bracket,
--   Va/Lifetime and Va/Opening how the code keeps them, and Va/Rows the bounds of its copies.
-- Screencast: ubuntu/src/capture.c. Screencast/Mutter has `mutter_screencast_init`,
--   Screencast/Pipewire `setup_pw_stream`, `db_capture_init` and `db_capture_destroy`,
--   Screencast/Stream the callbacks of the stream, `db_capture_start` and `db_capture_stop`.
-- Discovery: ubuntu/src/discovery.c. Discovery/Service has all its functions, Discovery/Naming the
--   search for a free name, Discovery/Lifetime a life with the callbacks of the thread.
-- Sender: `main` of ubuntu/src/main.c. Sender/Stream has its main loop and its stream loop, and
--   Sender/Frames what they do with the ring buffer while pictures come (`ring_pop`, `ring_flush`),
--   beside the queue that the ring is to be. Sender/Service says how the loops use SRT;
--   Sender/Waiting, Reading, Same and Refine compare the ring and the queue, and Sender/Order,
--   Receiving, Shown and Delivery follow the frames to the receiver. Sender/Shutdown has the flags
--   and the steps of the threads, with `signal_handler`, `db_capture_stop` and `db_input_stop`.
-- Capture: `on_frame_captured` of ubuntu/src/main.c; Capture/Arrivals has one call after the other
--   with the ring, and Capture/Session with VA-API.
-- Tools: tools/set_mode.c (Tools/SetMode) and tools/inject_edid.c (Tools/InjectEdid), with the rules
--   of libdrm in Tools/Rules; where the tools read the fields of what libdrm gave is a call too.
-- Rate: the adaptive bitrate of the stream loop in ubuntu/src/main.c.
-- Protocol: shared/protocol.h and its mirror mac/Sources/DisplayBridgeReceiver/Protocol.swift.
-- Streamer: ubuntu/src/streamer.c, with `db_streamer_init`, `db_streamer_get_stats` and
--   `db_streamer_destroy` in Streamer/Sockets; Streamer/Receiver has the
--   receiver's buffer and switch of mac/Sources/DisplayBridgeReceiver/SRTReceiver.swift,
--   Streamer/Session whole sessions under the eye of Streamer/Observer.
-- Input: `handle_input_event` and the loop of `db_input_start` in ubuntu/src/input.c; Input/Device
--   has `setup_uinput_device`, `setup_udp_listener`, `db_input_init` and `db_input_destroy`.
-- Tests: concrete inputs at which the hypotheses of the theorems hold.
--
-- `main` (Sender) starts the parts and the threads. The capture thread gets buffers (Screencast),
-- encodes a frame (Capture, Colour, Headers, Packed, Params, Gop, Va) and pushes it (Ring); the main
-- thread accepts a client (Streamer), flushes the ring, resets the bitrate (Rate) and forces an IDR
-- picture (Gop), and then pops and sends frames (Sender/Stream); the input thread turns datagrams
-- into events (Input); the thread of Avahi announces the service (Discovery).
--
-- Bounds: `int` and unsigned values are numbers with the wrap-around of the casts written out, and
-- sizes for which an `int` would overflow are left out by hypothesis. Fuel: 32 rounds for the count
-- of the bits of a `uint32_t`, 7 for the alignment of a byte, 8 for the flush of the ring; each is
-- proved to be enough. The recursion of `create_service` has fuel for the names that it tries, which
-- is enough if one of these is free.
--
-- Arguments of the model are what VA-API, SRT, GLib, PipeWire, Avahi, libdrm, the kernel, the
-- clock, `malloc` and the sockets answer, and the numbers of linux/input-event-codes.h. A handle
-- goes by the name of the variable that holds it, not by its value. An entry of the ring is read at
-- one moment, after the pictures that came since it was popped. In the main loop the encoder is
-- changed by the main thread only. Not modelled: the pixels and bitstreams behind a handle; the
-- texts of the messages that are logged; the kernel module in ubuntu/vkms-patched, which is a
-- patched copy of the Linux driver; the rest of the receiver, the scripts and the tests.
pub mod Prelude
pub mod Bitstream
pub mod Nal
pub mod Encoder
pub mod Headers
pub mod Packed
pub mod Params
pub mod Colour
pub mod Gop
pub mod Ring
pub mod Capture
pub mod Rate
pub mod Protocol
pub mod Streamer
pub mod Input
pub mod Calls
pub mod Va
pub mod Screencast
pub mod Discovery
pub mod Sender
pub mod Tools
pub mod Tests

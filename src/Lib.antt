-- ===== src/Lib.antt =====
-- Reticulum TNC: a packet modem for the audio path of FM radios, with a KISS TCP interface.
--
-- A packet from KISS (src/platform/kiss.c) waits in a queue (src/platform/packet_queue.c), is cut into
-- fragments (src/framing/fragmentation.c), and each fragment is sent as a frame with a checksum
-- (src/framing/frame.c). On the other side frames are parsed, fragments are put together, and
-- packets wait in a second queue for KISS.
--
-- The files and the code that they are about:
--   Frame: src/framing/frame.c. `crc16_ccitt_false`, `frame_build` and `frame_parse` are the functions
--     rtnc_crc16_ccitt_false, rtnc_frame_build and rtnc_frame_parse.
--   Fragmentation: src/framing/fragmentation.c. `Reassembly` is rtnc_reassembly_t, and the functions
--     have the names of the source without rtnc_. Fragmentation/Stream has the two ends of a link.
--   Kiss: src/platform/kiss.c. `KissParser` is rtnc_kiss_parser_t.
--   Ring: what the queues of src/platform share: index arithmetic, windows of a circle of slots, and
--     the bounded queue as a specification.
--   PacketQueue: src/platform/packet_queue.c, call by call; PacketQueue/Threads has the producer's and
--     the consumer's accesses as steps that interleave.
--   Runtime: src/platform/runtime.c. `Runtime` is rtnc_runtime_t. Runtime/Transmit has
--     rtnc_runtime_transmit_next in its parts; the backend and the modulator are parameters, and the trace has
--     the calls of the backend and the states that other threads can see. Runtime/Calls has sequences of
--     calls.
--   Completion: src/platform/completion.c, the window that puts the results of two decoders back into
--     the order of the jobs, call by call. Completion/Window reads it as a map from jobs to results.
--   OtaBenchmark: src/platform/ota_benchmark.c, the messages of the benchmark.
--   AudioRing, DecodeQueue: src/platform/audio_ring.c and src/platform/decode_queue.c, the queues of
--     captured blocks and of detected bursts. The calls that both spell out alike are in Ring/Spsc.
--   Wav: src/platform/wav.c, files of samples.
--   Ptt: src/platform/ptt.c, the line that switches the transmitter; libgpiod is a parameter.
--   Audio: src/platform/audio.c, playback and the life of the streams and the capture thread.
--   Transmitter: src/platform/transmitter.c, a waveform on the air: the filter, the pauses, the keying of
--     Ptt and the playback of Audio. `transmit_audio` is rtnc_transmit_audio.
--   Fec: src/fec/fec.c and src/fec/ldpc.c. A code is any table of parity masks and checks. Fec has the
--     encoder, Fec/MinSum the decoder of a codeword, rtnc_ldpc_decode_normalized_min_sum, and Fec/Decode
--     has rtnc_fec_decode, with the order in which it takes the blocks.
--   Profile, Rate: src/phy/profile.c and src/modem/rate.c, the profiles of the radio signal and the bits
--     per second that they give.
--   BurstDetector: src/platform/burst_detector.c. `Detector` is rtnc_burst_detector_t; one call takes one
--     sample. BurstDetector/Runs reads a run of calls as the bursts that it hands out.
--   Config: src/platform/config.c, what a configuration must be before the program starts. What the YAML
--     parser makes of a file is a parameter of `platform_config_load`.
--   Floats: the numbers of the parts above. The source uses float and double; a type of numbers here is
--     a record of the operations that the source uses, a theorem names what it needs of them, and
--     Floats/Fixed is an instance with nine decimals in which the tests compute.
--   Base: numbers, lists, bits and results that all parts share.
--
-- Conventions. A pointer passed with a length is the list of the bytes there, and an output buffer
-- is its capacity; a call returns what it writes. So the guards on NULL have no counterpart.
-- Unsigned arithmetic wraps where the source's can (`u8`, `u16`, `u32`, `u64`; size_t has 64 bits).
-- A buffer of which the source uses the first `length` bytes is the list of these. Loops are
-- recursions on lists, counts or the answers of the outside, so no fuel is needed, but for the loop
-- over the frequencies of a band in Config: it has 64 steps, and a band has at most 49 frequencies
-- (up to 4800 Hz in steps of 100 Hz). The iterations of rtnc_ldpc_decode_normalized_min_sum are counted
-- down from `max_iterations`, which is below UINT_MAX (the source passes 30). A call of the runtime is one step: what the two threads do
-- between the accesses of the queues is in PacketQueue/Threads only.
--
-- Not modelled: the modulator and demodulator (src/modem/offline.c and most of src/phy), the design
-- of the transmit equalizer, the capture loop and the negotiation of src/platform/audio.c, HackRF,
-- sockets, threads beyond the packet queue, the YAML parser.
pub mod Base
pub mod Frame
pub mod Fragmentation
pub mod Kiss
pub mod Ring
pub mod PacketQueue
pub mod Runtime
pub mod Completion
pub mod OtaBenchmark
pub mod AudioRing
pub mod DecodeQueue
pub mod Wav
pub mod Ptt
pub mod Fec
pub mod Floats
pub mod Profile
pub mod Rate
pub mod BurstDetector
pub mod Config
pub mod Audio
pub mod Transmitter

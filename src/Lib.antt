-- ===== src/Lib.antt =====
-- Verification of libltntstools, a C library that analyses and makes MPEG transport streams.
--
-- Parts of the program and where they are modelled (paths from the repository's root):
--
-- - src/klringbuffer.c, a ring of bytes that grows up to a limit: Ring.antt has the record
--   `RingBuffer` and one function for each function of the source, on that record; Ring/Dump.antt
--   the dump to a file. The allocation is a list of bytes, and memcpy, memset and realloc
--   (Memory.antt) give `none` where they would run past it. The bytes that realloc adds are unknown:
--   they are what a parameter `spare` gives, of which only the length is assumed. Ring/Queue.antt
--   is the specification, a bounded queue.
-- - src/crc32.c: Crc.antt has the table and the two loops over it; Crc/Serial.antt the bit-serial
--   division that they stand for.
-- - src/libltntstools/ts.h and src/ts.c, transport packets: Packet.antt has the header fields,
--   Packet/Clock.antt the clock arithmetic, Packet/Pcr.antt the clock in a packet, Packet/Counter.antt
--   the 64-bit test counter, Packet/Search.antt the searches for sync bytes and PES headers,
--   Packet/Types.antt the kinds of streams. A pointer to bytes is a function from an index to a byte
--   (`Pointer`).
-- - src/ts_packetizer.c, a buffer cut into packets: Packetizer.antt, for both functions; they share the
--   header fields of Packet.antt with whoever reads the packets. Packetizer/Payload.antt says what a
--   receiver reads.
-- - src/nal_bitreader.c, bits and Exp-Golomb codes: NalReader.antt.
-- - src/libltntstools/klbitstream_readwriter.h, bits written to and read from a buffer:
--   BitStream.antt, with the overrun macros as the file sets them.
-- - src/pes.c, PES packets: Pes.antt has the record, Pes/Pack.antt the writer and Pes/Parse.antt the
--   parser. Both go through the bit stream: a run of its calls is a list of fields
--   (BitStream/Fields.antt).
-- - src/rtp-analyzer.c, checks of RTP headers and the search for RTP frames: Rtp.antt.
-- - src/reframer.c, a stream of bytes cut into frames of one size: Reframer.antt; Reframer/Stream.antt
--   says what comes out for what goes in.
-- - src/sei-timestamp.c, times in a user-data SEI message: Sei.antt, with the times of
--   src/libltntstools/timeval.h in Timeval.antt.
-- - src/sectionextractor.c, one table section collected from packets: Section.antt. It reads the
--   packets with the header fields of Packet.antt and checks the section with `check_crc32`.
-- - src/tr101290-types.h, src/tr101290-events.c and src/tr101290-alarms.c, the table of events and
--   their alarms: Tr101290.antt; src/tr101290-p1.c, the checks of priority 1 that need no program
--   tables: Tr101290/P1.antt. The count of continuity errors, which the statistics keep, is an
--   argument of the check that reads it.
-- - src/stats.c, the counts of each pid and of the stream in a call with packets: Stats.antt. It reads
--   the packets with the header fields of Packet.antt. Stats/Sequence.antt says which packets follow
--   the one before, and Stats/Call.antt puts the call together. Stats/Ctp.antt
--   has the sequence numbers of CTP frames.
--
-- Base.antt has the operations on numbers and lists that the models share, and lemmas on them: bit
-- operations (Base/Bits, Base/Xor), bytes and finite checks (Base/Byte), tabulated functions
-- (Base/Table), integers (Base/Int) and the bits of a buffer as one number (Base/Prefix). Numbers are
-- unbounded, and a C type's wrap is written out (`u8`, `u16`, `u32`, `u64`) in the arithmetic of the
-- ring, the readers and writers of bits, the packet fields, the test counter, the sizes of the
-- packetizers' arrays, the counter of sync errors and the sequence numbers. It is not written out for
-- counts of 64 bits, for times, for lengths of a buffer held in an int, and for the interval of an
-- alarm (a theorem on it bounds the interval). The clock that `ltntstools_ts_packetizer_with_pcr` takes
-- is -1 or not negative here.
--
-- Fuel: a loop whose end is not structural takes fuel. The packetizers' loops have one round more
-- than bytes, and so have the search for RTP frames and the reframer; the search for the one of an Exp-Golomb code has
-- one more than bits are left. Each round uses up a byte or a bit. The dump of a ring takes its fuel as a parameter, and one round more
-- than its bytes is enough.
--
-- Not modelled: locks (a call is one step, with no other caller in between), failing allocation, freeing, printing, null pointers
-- except where the source tests them and the test matters, and the other parts of the library:
-- the rest of the statistics (rates, times, PCR clocks, byte streams), of the TR 101 290 analysis (its thread, timers and reports, the PMT and the
-- checks of priority 2), tables and stream model, the PES extractor, smoothers, buffer verifier, NAL headers,
-- network input, file output.
pub mod Base
pub mod Memory
pub mod Ring
pub mod Crc
pub mod Packet
pub mod Packetizer
pub mod NalReader
pub mod BitStream
pub mod Rtp
pub mod Reframer
pub mod Stats
pub mod Timeval
pub mod Sei
pub mod Section
pub mod Tr101290
pub mod Pes

-- ===== src/Lib.antt =====
-- mieru is a proxy: a client and a server exchange encrypted segments over a stream (TCP) or a packet
-- (UDP) underlay. Each connection of an application is a session on it, which the application opens
-- with a SOCKS5 request. This library models the state and the computations of the protocol; sockets,
-- cryptography, configuration files and the command line are left out.
--
-- The parts, with the files of the repository that they model:
-- - Common: Boolean tests, lists over native numbers, Go's `(value, error)` as `Result`, big-endian
--   bytes, and `io.ReadFull` on a list of bytes.
-- - Mathext (pkg/mathext/numbers.go): `Min`, `Max`, `Mid` and `WithinRange`. The width of an unsigned
--   integer is an argument, and sums wrap around.
-- - Protocol.Metadata (pkg/protocol/metadata.go): the two metadata structs, `Marshal` and `Unmarshal`
--   on 32 bytes. The clock is an argument, in minutes. The fields have the ranges of their Go types by
--   hypothesis.
-- - Protocol.LowEntropy (pkg/protocol/low_entropy.go): modes, encoded lengths and validation. The
--   encoding of the payload itself is not modelled.
-- - Protocol.Segment (pkg/protocol/segment.go): segments, the fragment sizes, and `segmentTree` over
--   a B-tree. The B-tree is code of another project: the record `BTree` has its operations and the
--   laws of an ordered set without duplicates, and `ListTree` is an instance. A channel of capacity
--   one is a Boolean.
-- - Protocol.Session (pkg/protocol/session.go): the session as a record. `Receive` has `inputData`, `inputAck` and `moveRecvBufToRecvQueue`; `Send` has `writeChunk`; Protocol.Output
--   has what goes to the underlay, retransmission and closing, with `writeOneSegment` and the floating point
--   computation of a timeout as parameters. They use the trees of Protocol.Segment and the metadata of
--   Protocol.Metadata. The congestion control and the round
--   trip times (pkg/congestion) are the record `Congestion` of arbitrary functions. A wait on a channel
--   is the outcome `blocked`, and deadlines of
--   reads and writes are left out. What other goroutines do while `writeChunk` waits is an argument. `Read` has the loop of reading. The open
--   request of `Write` and the loops that wait between the single runs are left out.
-- - Protocol.Underlay (pkg/protocol/underlay_base.go, pkg/protocol/underlay_stream.go): a segment on a
--   stream. `Stream` has `writeOneSegment` and `readOneSegment` on the bytes of the connection, with the
--   ciphers of Cipher and the metadata of Protocol.Metadata. The protocol of a segment is one of
--   the kind of its metadata. The search of the user registry, the
--   content of pooled buffers and the low entropy codec are parameters; paddings, nonces, clocks and
--   the answer of the replay cache are arguments.
-- - Cipher (pkg/cipher/cipher.go): the cipher of a connection or of packets, over an AEAD and SHA-256
--   that are the record `Crypto`. A new random nonce is an argument.
-- - Protocol.ServerUser.SourceCache (pkg/protocol/serveruser/source_user_cache.go): the cache of users
--   by source address. The hash of a key is an arbitrary function.
-- - Protocol.Scheduler (pkg/protocol/scheduler.go): when an underlay takes new sessions.
-- - Protocol.Padding (pkg/protocol/padding.go): the largest lengths of paddings.
-- - Socks5.Egress (pkg/socks5/egress.go): what becomes of a request, by its destination. It reads the
--   request with Apis.Socks; the standard library's `net` and `strings` are the record `Net`.
-- - Version (pkg/version/scheme.go): the order of version numbers, whose components are not negative.
-- - Replay (pkg/replay/replay.go): the cache of signatures. The hash is an arbitrary function.
-- - Metrics.Counter (pkg/metrics/counter.go): counters with a history in tiers.
-- - Apis.PacketOverStream (apis/common/packet_over_stream.go): packets on a stream.
-- - Apis.Socks (apis/model/addr.go, apis/model/socks.go): SOCKS5 addresses, requests and responses.
--
-- A method that holds a lock for its whole run is one step. Loops over trees run on fuel: the number
-- of segments in the tree and one more, since each round but the last takes a segment out; a run that
-- exhausts it would show as a loop that stops early, which the theorems on the loops exclude. The other
-- loops recurse on their data. Sequence numbers are 32 bits wide and wrap around in the definitions;
-- theorems that need their order have a hypothesis that they do not wrap. What a stream has lost when
-- a reader fails is not modelled.
pub mod Apis
pub mod Cipher
pub mod Common
pub mod Mathext
pub mod Metrics
pub mod Protocol
pub mod Replay
pub mod Socks5
pub mod Version

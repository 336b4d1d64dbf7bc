-- ===== src/Lib.antt =====
-- Verification of open-rfc-go, a Go implementation of SAP's classic synchronous RFC.
--
-- A call travels as a CPIC conversation inside APPC records, each record in one NI frame on a TCP
-- stream; clients borrow authenticated sessions from a pool. The development models the parts that
-- carry this: the record reader and writer, the framing, the pool, field headers, compressed
-- payloads, and APPC: its records, the setup of a conversation, and messages cut into fragments
-- and put together again; and the strings of SAProuter routes.
--
-- - Base: lists over native numbers, Go's (value, error) pair, encoding/binary, methods with state,
--   and the names that fmt.Sprintf builds.
-- - Wire: wire/wire.go. Reader and Writer are records with the Go fields; a Read or Write method
--   is a function from the object to its outcome and the object afterwards. Wire.Record composes
--   the calls to whole records, as the record codecs do. internal/wire is a copy of that file.
-- - Ni: ni/frame.go. FrameDecoder keeps the queue of chunks with headIndex, headOffset and
--   buffered. The loops of consume and Push run on fuel: one round for each chunk and one for each
--   buffered byte, plus one, which Ni.Push shows to be enough. internal/ni is a copy of that file.
-- - Pool: internal/pool/pool.go. Pool.Defs has one function for each section under p.mu;
--   Pool.System lets callers, the janitor and Close run these in any order, as a list of events.
-- - Rfcpro: internal/rfcpro/rfcpro.go, the tag and length in front of a parameter's value.
-- - Fastser: internal/fastser/lz4.go. Fastser.Lz4 has the decoder and the search, Lz4.Blocks the
--   blocks of the published format and their encoding. Both loops run on fuel: one round for each
--   byte, which Lz4.Bounds and Lz4.Search show to be enough. Go's panic where a match reads outside
--   the output is an error of the model's own.
-- - Appc: internal/appc. Appc itself and Appc.Outgoing are fragmentation.go: the information of data
--   records, what each fragment of a message is, the plan of an outgoing message and the encoding of
--   its steps. Appc.Header and Appc.Ascii are appc.go. Appc.Records, Info, Parameters and Control are
--   records.go: an encoder is the list of its writes, which Wire.Record.Puts runs, and a decoder the
--   sequence of its reads. Appc.Setup and Appc.Conversation are conversation.go: the client's state
--   machine as a function on its states, with the protocol as a relation in Setup.Protocol (the
--   diagram in docs/role-state-machines.md has no send-barrier-pending; code and tests do), and the
--   decoder that puts messages together again, whose pending message is its only mutable field.
--   Conversation.Delivery joins the encoder of data records to that decoder.
-- - Saprouter: internal/saprouter/saprouter.go. Route strings, split at their slashes and parsed in pairs
--   of a token and its value; both loops of Admit are one recursion on the parts.
--
-- Go's int is a native number where the code keeps it from being negative, and ℤ where a caller
-- may pass a negative one. Slices are lists, and a slice that is copied is the list itself, so
-- aliasing does not arise. Error messages are left out, but for the numbers and names that they
-- carry. Locks are not modelled: a section under a lock is one step. What is left out altogether
-- (the servers, the metadata readers, the serializers) is listed with the reasons in the manifest.
pub mod Base
pub mod Wire
pub mod Ni
pub mod Pool
pub mod Rfcpro
pub mod Fastser
pub mod Appc
pub mod Saprouter

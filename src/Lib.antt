-- ===== src/Lib.antt =====
-- Verification of the core of Cap'n Proto, as it stands in capnproto/c++ of this repository: the
-- text codecs, the packed encoding, the framing of messages, the byte streams under them, the readers
-- of structs and lists in messages, and the builders that allocate and fill them.
--
-- The parts, and how they interact. A message is a sequence of segments, each an array of words of
-- eight bytes. Framing lays the segments out behind a table of their sizes; the packed encoding
-- compresses words on their way into a buffered stream and expands them on their way out; the
-- streams buffer bytes. The text codecs are used by everything that prints or parses.
--
-- - Common: Boolean tests, lists and bits that all parts share.
-- - Encoding (capnproto/c++/src/kj/encoding.c++, encoding.h). A function `fooBar` is `foo_bar`. An
--   `EncodingResult` is the record of that name. Text is a list of bytes, and so are bytes;
--   `char16_t` and `char32_t` units are numbers, and every shift into them is taken modulo their
--   width. A `kj::String` is modelled without the NUL that ends it; the NUL that `nulTerminate` asks
--   for is modelled. A loop over an index is a recursion on the rest of the text; a table of
--   characters is a list. The base64 blocks get their lengths as int, which `narrowed` models: a
--   length that is negative as an int is `none`.
--     Encoding.Hex, Encoding.Uri, Encoding.CEscape, Encoding.Utf, Encoding.Base64 (with Url).
-- - Packed (capnproto/c++/src/capnp/serialize-packed.c++). `Word` is a word in memory order.
--   Packed.Format says which bytes stand for which words, apart from any encoder. Packed.Write is
--   `PackedOutputStream::write`: `Output` holds what the inner stream got and the buffer that is being
--   filled, and each store checks that it is within the buffer (`overrun` if not); the sizes of the
--   inner stream's buffers are a parameter. The writer is modelled with the tag stored before the
--   bytes of the word, whose place the code keeps free until then. Packed.Read is
--   `PackedInputStream::tryRead` and Packed.Skip is its `skip`: `Input` is the buffer that is being
--   read and the buffers that will follow. Packed.Size is `computeUnpackedSizeInWords`.
-- - Serialize (capnproto/c++/src/capnp/serialize.c++): `messageToFlatArray`, `writeMessage`,
--   `FlatArrayMessageReader`, and the two size computations. A word is its two 32-bit halves, which is
--   how the segment table is read and written. Serialize.Stream is `InputStreamMessageReader`, over
--   bytes, with the scratch space as the bytes that are read so far.
-- - Io (capnproto/c++/src/kj/io.c++): `InputStream`, the buffered wrappers and the array streams. An
--   inner stream is a parameter, with the contract of io.h as the hypothesis `IsInputStream`.
-- - Wire (capnproto/c++/src/capnp/layout.c++, layout.h, arena.h, arena.c++, and getRootInternal of
--   message.c++): reading. `Reads` is a read that may throw, with the traversal limit of `ReadLimiter`
--   as its state; `fault` is no result of the code but an access outside of a segment, at which the
--   model stops. A C++ pointer into a segment is the segment with a byte address or a word position in
--   it. Wire.Pointer is `WirePointer`, Wire.Segment the limiter, `SegmentReader` and `tryGetSegment`,
--   Wire.Fars is `followFars`, Wire.Size is `totalSize`, which recurses on the nesting limit,
--   Wire.Read has `getStruct` and `getList`, Wire.Read.Access the root and the accessors,
--   Wire.Read.Bytes numbers, text and data. Wire.Read.Reach is a program that reads: a `Call` on
--   readers that earlier calls returned, and `Reached`, the states after any number of them, where an
--   exception may be caught. Wire.Holds has the rules for reads.
-- - Build (arena.h, arena.c++, `MallocMessageBuilder` of message.c++, layout.c++, layout.h): writing.
--   `SegmentBuilder::allocate`, `BuilderArena::allocate`, `getSegmentsForOutput` and `getRootSegment`. A
--   segment is its words and the position of the first free one, a C++ pointer into it the id of the
--   segment with a word position or a byte address, and `none` an exception. Build.Output is the arena
--   as the list of segments that it outputs. Build.Memory has the loads and stores, on an arena and
--   on what it outputs. Build.Caps is the local capability table, with numbers for the hooks.
--   Build.Zero is `zeroObject`. Build.Objects is `allocate` of `WireHelpers`, with landing pads of far
--   pointers, and `initStructPointer`, `initListPointer`, `initStructListPointer`, `initTextPointer`
--   and `initDataPointer`; its child modules follow a new object to what a reader finds: where it is
--   placed (Placed, Near, Far, Laws), that its pointer leads to it (Reached, Found), that stores into
--   it keep that (Built), and how each kind is read (Structs, Lists, StructLists, Blobs). Build.Copy is
--   `setTextPointer` and `setDataPointer`, Build.Fields `setDataField` and `setDataElement`, and
--   Build.Whole goes from a message without a segment to the reader of its root. Wire.Fars.Found,
--   Wire.Read.Found and Wire.Read.Bytes.Found are the readers on pointers that are known to be right,
--   which is where the two sides meet.
-- - Tests: the theorems at concrete inputs.
--
-- Fuel. The decoders of text recurse on fuel, the length of the text, of which each round consumes
-- at least one character; `none` is what a decoder returns without fuel, and the theorems give a
-- result. `write` has one round of fuel for each word. `tryRead` and `skip` have two rounds for each
-- byte of output: a round that reads adds eight bytes, and one that only fetches a buffer is followed
-- by one that reads. `computeUnpackedSizeInWords` has one round for each byte, `InputStream::skip` one
-- for each byte asked for, and `readAll` one more than its limit, which each full part lowers.
-- `zeroObject`, which recurses without a bound, has fuel for the depth of the objects, and is `none`
-- beneath it as it is on an exception; the theorems on new objects hold for every fuel, since a null
-- pointer has nothing to be zeroed.
--
-- Not modelled: the `getWritable` functions with their upgrades, copies of objects, Boolean fields of
-- builders, canonicalization, orphans and capability pointers (layout.c++); external segments, so that
-- all segments of a builder are writable; default values, which come from the program and not from
-- the message; unchecked messages, which have no segments; schemas, dynamic values, RPC, the event
-- loop, the file system, the schema compiler and the adapters, which stand on the parts above or on
-- the operating system; `VectorOutputStream`; and the Rust build glue (src/lib.rs). An
-- exception ends the modelled call: what `KJ_REQUIRE` does where exceptions are turned off is
-- modelled for `FlatArrayMessageReader` only. Threads share a limiter without a lock; the model has
-- one thread. Memory that the system refuses to give is not modelled: `calloc` in `allocateSegment`
-- succeeds up to the largest segment. Amounts of words have the 29 bits and offsets of fields the 22
-- bits of their types, so that the sums with one that the code forms of them do not wrap around.
pub mod Common
pub mod Encoding
pub mod Packed
pub mod Serialize
pub mod Io
pub mod Wire
pub mod Build
pub mod Tests

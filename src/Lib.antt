-- ===== src/Lib.antt =====
-- WarpFile sends files between devices. Two peers exchange frames over a stream (src/protocol/):
-- a header of twelve bytes, and a payload whose form the message type says. Version 0.2 sends a
-- file as one run of data and can resume at an offset. Version 0.3 cuts the file into chunks
-- (src/chunk.rs), hashes each, and the receiver records the chunks that it has verified
-- (src/chunk_state.rs), so that only the others are sent again.
--
-- Files, by the part of the program:
--   Common         shared names, lists with native lengths, Boolean tests, and `Result`, which
--                  has a third outcome for a panic
--   Bytes          what the program uses of the standard library on bytes: big-endian numbers,
--                  slices, indices and conversions to an array that panic, the test of `String::from_utf8`,
--                  checked arithmetic
--   Io             the kinds of an I/O error; Io.File and Io.Source are the interfaces of an open
--                  file and of a reader, with the loop that fills a buffer
--   Protocol.Message, .Frame, .Encoder, .Decoder
--                  src/protocol/{message,frame,encoder,decoder}.rs: `from_wire`, `encode_frame`,
--                  `validate_frame_header`, `decode_frame_for_version`
--   Protocol.Stream
--                  src/protocol/io.rs: `write_frame` and `read_frame_for_version`, which call the
--                  codec around the `write_all`, `flush` and `read_exact` of a stream; Protocol.Stream.Exchange
--                  sends a list of frames from one end to the other
--   Protocol.TransferId, .Offer, .Resume, .Reject, .Announcement
--                  src/protocol/{transfer_id,offer,resume,reject,discovery}.rs, the payloads of
--                  version 0.2 and of discovery
--   Protocol.V03   src/protocol/v03.rs, the payloads of version 0.3
--   Protocol.Totality, .Payloads
--                  all decoders together
--   Chunk.Hash, .Manifest
--                  src/chunk_manifest.rs: `ChunkHash`, and the builder of a manifest
--   Chunk.Layout   src/chunk.rs: `chunk_count` and `range`
--   Chunk.Search   the recorded chunks, and what the standard library's binary search, which the chunk
--                  state calls on them, is documented to return on a list in increasing order
--   Chunk.State    src/chunk_state.rs, the state in memory: `ChunkState::new`, `hash`,
--                  `record_verified_chunk`; Chunk.State.Revalidate: `revalidate_chunk_state` and
--                  `prepare_chunk_inventory`
--   Chunk.Reading  the loops that hash what a reader yields, in src/chunk_state.rs and
--                  src/receiver_v03.rs
--   Receiver.Prepare, .Chunks, .Transfer, .Final
--                  src/receiver_v03.rs: `prepare_receiver_v03`; `ChunkReceiverV03` with
--                  `begin_chunk`, `write_data` and `persist_verified_chunk`; `receive_transfer`;
--                  `verify_complete_file`. Receiver.Sound states the invariant of a transfer, that
--                  every recorded chunk stands in the file, and Receiver.Steps, .Persist, .Coverage
--                  and .Complete follow it through the operations; Receiver.Transfer.Rounds and
--                  .Ends are about the rounds of the loop
--   Receiver.Negotiation
--                  src/receiver_v03.rs: `negotiate_inventory`; its children follow the announced
--                  records over the stream to the sender
--   Sender.Inventory, .Scan, .Transfer, .Session, .Retry
--                  src/sender_v03.rs: `receive_inventory_and_accept`; `SourceScannerV03`;
--                  `send_source_chunks_complete_and_verify_v03` and what it calls;
--                  `send_session_v03_with_stream`; `is_retryable` and the loop of
--                  `run_sender_v03`
--   Hex            the hexadecimal text of digests in src/completion_receipt.rs (`encode_hex`,
--                  `parse_hex`) and src/chunk_state.rs (`encode_chunk_hash`, `parse_chunk_hash`)
--   FileName       src/receiver_paths.rs: `is_safe_filename`, and in FileName.Paths the paths of the
--                  partial and the final file, as byte lists and as components; `Path` is that of Unix
--   Metadata       src/transfer_metadata.rs: the data of a partial transfer and the text of its id
--                  (`parse_transfer_id`)
--   Examples       tests, and each theorem applied at a concrete input
--
-- Conventions. A byte is a number, and a list of bytes has `IsBytes` where the type `u8` matters.
-- A `String` is the list of its UTF-8 bytes. What the Rust type of a field says (a width, a
-- length, UTF-8) is a predicate on the record, such as `IsFileOffer`. A method on `&mut self`
-- takes the state and returns the state after the call with its result. An index or slice out of
-- bounds, a slice of another length than the array it is converted or copied to, a failed `expect` and
-- a `u64` sum or difference out of range are `panic`. `usize` has 64 bits.
--
-- Fuel. The loop of `ChunkManifestBuilder::update` has the length of the data as fuel, and each round
-- takes at least one byte; it panics without fuel, so that a theorem about a result shows that
-- the fuel was enough.
--
-- `read_full` and `hash_chunk` have the number of bytes asked for, `hash_rest` one more than the bytes
-- of the file, and each read takes a byte; `send_fragments` has the length of the chunk, and each
-- round takes a byte; `send_chunks` has a unit for each chunk and one for the end; `receive_batches`
-- has the number of declared records, and each round receives one; `chunks_loop` has the length of
-- its list; `attempts_from` has the attempts that are left. `receive_transfer` takes its fuel
-- as an argument, a unit for each frame. All of these panic without fuel, but for `chunks_loop`, whose
-- fuel is enough since each round takes an entry.
--
-- Parameters. The stream is an interface (`AsyncRead`, `AsyncWrite`): `read_exact` returns exactly
-- the next bytes or fails, `write_all` appends to what the writer has taken or fails, and `flush`
-- hands on all of it or fails. The BLAKE3 hasher is an interface
-- (`Hasher`): its digest is a function of the bytes that it has taken, in order.
-- An open file is an interface (`RandomFile`, `Readable`, `Resizable`): a write that succeeds replaces
-- the bytes at its offset, a reader yields what stands behind an offset, a change of the length cuts
-- or appends zeros, and a failed write may leave any contents. `Source` is a reader whose `read` may
-- return fewer bytes than asked for, and none only at the end. `ChunkStore` keeps the last state that
-- was written. What opening a file gave is an argument.
--
-- Not modelled: the texts of errors (`Display`), the random generator of transfer ids (what it gives to a run is an argument), the command
-- line, the progress display, the sockets of discovery, the command of Tailscale; the JSON texts, and
-- how a file is opened, published and removed on disk; the session of the receiver of version 0.3
-- around its transfer, and the sessions of version 0.2.
pub mod Common
pub mod Bytes
pub mod Io
pub mod Hex
pub mod FileName
pub mod Metadata
pub mod Receiver
pub mod Sender
pub mod Protocol
pub mod Chunk
pub mod Examples

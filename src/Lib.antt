-- ===== src/Lib.antt =====
-- The crate `cryptonugget`: encrypted channels between two parties or the nodes of a mesh, and their
-- persistence across power cuts.
--
-- Parts and files. A name in backquotes that is no path is a function or type of the crate.
-- - Base: the shared names; Base/Lists and Base/Bits the lemmas on lists and on bitwise operations.
-- - Error: src/error.rs. A computation returns a value, an error, or panics (`Result`).
-- - Bytes: big-endian numbers, slices with their panics out of range, the loops that xor.
-- - Crypto: AES-256-GCM, HKDF, SHA-256 and base64 are crates outside this repository. They are the
--   fields of a record, and `IsLawful` states what their documentation promises. Crypto/Toy is an
--   instance, which shows that the laws can hold and with which the tests compute.
-- - Packet: src/packet.rs, `Packet` with its three layouts and the associated data.
-- - Role: `Role` of src/modes/ordered.rs.
-- - Window: `PeerReplayState` of src/modes/chrono.rs. Window/Meaning says what its bitmap means.
-- - Replay: src/modes/replay.rs, `ReplayWindowChannel`; `record` and `open` of the source are
--   `record_seq` and `open_packet` here.
-- - Chrono: src/modes/chrono.rs, `ChronoMeshNode`. Chrono/Peers is its map of peers, Chrono/Checkpoint
--   its checkpoints, Chrono/Threads the interleavings of the calls that seal and open, Chrono/Counter
--   what becomes of its counter.
-- - Wal: `ChronoWalJournal` of src/persistence.rs; Wal/File its file on disk.
-- - DualSlot: `DualSlotContainer` of src/persistence.rs; DualSlot/File its file on disk.
-- - Ordered: src/modes/ordered.rs, `CryptoNugget`; Ordered/Links its invitation links,
--   Ordered/Snapshot its snapshots, from src/persistence.rs; Ordered/Snapshot/Epochs and
--   Ordered/Snapshot/Resume are about a channel whose epoch an export has moved.
-- - Texts: Texts/Display the `Display` of errors, Texts/Debug the `Debug` of the types with keys.
-- - Panics: the computations that read what another party sends, followed step by step through the
--   places where they can panic.
-- - Seed: src/seed.rs, `MasterSeed`.
-- - Envelope: src/modes/envelope.rs, `StatelessEnvelope`.
-- - Modes: src/modes/mod.rs, `Mode` and `Builder`.
-- - Ffi: src/ffi.rs, the C interface over a node, its container and its journal. A call returns its
--   code, the handle and what it wrote.
-- - Demo: examples/demo.rs, the example program, over the nodes, the container and the journal.
--
-- An operation that changes an object takes it and returns what it leaves, on every path, errors
-- included. Numbers are natural numbers, and where a 64-bit or 128-bit operation can leave its range
-- the wrapping or the check is written out; `usize` has 64 bits. A nonce that the source draws from the
-- random generator is an argument, and so is what the file system does to a file. Fuel: the loop of
-- `recover_from_bytes` gets one more round than the bytes it reads, and every round but the last
-- consumes at least 72 of them.
--
-- Not modelled: zeroing and releasing of memory, and the bindings over the C interface.
pub mod Base
pub mod Error
pub mod Bytes
pub mod Crypto
pub mod Packet
pub mod Role
pub mod Window
pub mod Replay
pub mod Chrono
pub mod Wal
pub mod DualSlot
pub mod Ordered
pub mod Seed
pub mod Envelope
pub mod Modes
pub mod Texts
pub mod Panics
pub mod Ffi
pub mod Demo

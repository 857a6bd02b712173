-- ===== src/Ffi/RoundTrip.antt =====
-- A packet through the C interface, from one handle to another.
use cripto_endevs_comunity.Base.{
  ℕ, ◌^◌, ◌≤◌, ◌<◌, ◌≡◌, refl, true, some, List, length, arith, inl, inr, Bool-cases,
}
use cripto_endevs_comunity.Error.{Result, ok, err, panic, pos}
use cripto_endevs_comunity.Bytes.{IsBytes}
use cripto_endevs_comunity.Crypto.{Crypto, IsLawful}
use cripto_endevs_comunity.Packet.{Packet, to_bytes, from_bytes}
use cripto_endevs_comunity.Window.{check}
use cripto_endevs_comunity.Chrono.{seal_realtime, open_realtime, abs_diff, or_default}
use cripto_endevs_comunity.Chrono.Peers.{get}
use cripto_endevs_comunity.Chrono.Mesh.{
  SameMesh, IsTimely, seal_realtime-SealedAs, open_realtime-seal_realtime,
}
use cripto_endevs_comunity.Chrono.Ranges.{IsSender, from_bytes-seal_realtime}
use cripto_endevs_comunity.Ffi.Codes.{as_i32-pos}
use cripto_endevs_comunity.Ffi.{
  CnMeshHandle, bytes, Output, Call, has_room, write_output, code_of, respond, raw_of,
  slice_from_raw, cn_mesh_seal_realtime, cn_mesh_open_realtime,
}

-- The output is taken whole.
pub record IsRoomy (out : Output) (size : ℕ) : Type 0 where
  pub has_len : out.has_len ≡ true
  pub room : has_room out.buffer size ≡ true

-- What a call that has room for its output returns of it.
pub respond-ok :
    (src : List ℕ) (out : Output) (h : CnMeshHandle)
    → IsRoomy out (length src)
    → length src < 2 ^ 31
    → respond (ok src) out h ≡ record {
      code = pos (length src);
      handle = some h;
      written = record { out_len = some (length src); out_buf = some src };
    }
unfolding respond write_output code_of
respond-ok src out h roomy small =
    rw (respond, write_output, roomy.has_len, roomy.room, as_i32-pos (length src) small, code_of)
      refl

-- What was written is what was computed.
pub respond-out_buf :
    (r : Result (List ℕ)) (out : Output) (h : CnMeshHandle) {src : List ℕ}
    → (respond r out h).written.out_buf ≡ some src
    → r ≡ ok src
unfolding respond write_output
respond-out_buf (ok bs) out h e = elim (Bool-cases out.has_len) [
  | inl len ↦ ground arith
  | inr null ↦ ground arith
]
respond-out_buf (err x) out h e = ground arith
respond-out_buf panic out h e = ground arith

raw_of-ok :
    (r : Result Packet) {raw : List ℕ}
    → raw_of r ≡ ok raw
    → (p : Packet) × (r ≡ ok p) × (raw ≡ to_bytes p)
raw_of-ok (ok p) h = (p, refl, ground arith)
raw_of-ok (err e) h = absurd (ground arith)
raw_of-ok panic h = absurd (ground arith)

-- Where a call wrote a packet, it sealed one.
pub cn_mesh_seal_realtime-out_buf :
    (c : Crypto) (a : CnMeshHandle) (plaintext aad : List ℕ) (now_ms : ℕ) (out : Output)
    {raw : List ℕ}
    → (cn_mesh_seal_realtime c (some a) (bytes plaintext) (bytes aad) now_ms out).written.out_buf
      ≡ some raw
    → (p : Packet) × ((seal_realtime c a.node plaintext aad now_ms).0 ≡ ok p) × (raw ≡ to_bytes p)
unfolding cn_mesh_seal_realtime slice_from_raw
cn_mesh_seal_realtime-out_buf c a plaintext aad now_ms out h =
    raw_of-ok (seal_realtime c a.node plaintext aad now_ms).0
      (respond-out_buf (raw_of (seal_realtime c a.node plaintext aad now_ms).0) out _ h)

-- Opening the bytes of a packet that is read back.
pub cn_mesh_open_realtime-to_bytes :
    (c : Crypto) (b : CnMeshHandle) (p : Packet) (aad : List ℕ) (now_ms : ℕ) (out : Output)
    → from_bytes (to_bytes p) ≡ ok p
    → cn_mesh_open_realtime c (some b) (bytes (to_bytes p)) (bytes aad) now_ms out
      ≡ respond
          (open_realtime c b.node p aad now_ms).0
          out
          (record b { node = (open_realtime c b.node p aad now_ms).1 })
unfolding cn_mesh_open_realtime slice_from_raw
cn_mesh_open_realtime-to_bytes c b p aad now_ms out read =
    rw (cn_mesh_open_realtime, slice_from_raw, read) refl

-- What one handle wrote as a packet of a plaintext of less than 2^31 bytes, a handle of the same mesh
-- opens, if the numbers of the sender and its time are in the ranges of their Rust types, the packet is
-- timely there, its number is new, and the buffer has room: the code is the length of the plaintext,
-- and the plaintext is written.
pub cn_mesh_open_realtime-cn_mesh_seal_realtime :
    (c : Crypto) (a b : CnMeshHandle) (plaintext aad raw : List ℕ) (sealed_ms now_ms : ℕ)
    (out out' : Output)
    → IsLawful c
    → SameMesh a.node b.node
    → IsSender a.node
    → sealed_ms < 2 ^ 64
    → IsBytes plaintext
    → length plaintext < 2 ^ 31
    → (cn_mesh_seal_realtime c (some a) (bytes plaintext) (bytes aad) sealed_ms out).written.out_buf
      ≡ some raw
    → abs_diff now_ms sealed_ms ≤ b.node.max_time_drift_ms
    → check
        (or_default (get a.node.node_id a.node.epoch b.node.peers))
        a.node.tx_seq
        b.node.replay_window
      ≡ ok tt
    → IsRoomy out' (length plaintext)
    → let r : Call = cn_mesh_open_realtime c (some b) (bytes raw) (bytes aad) now_ms out' in
      (r.code ≡ pos (length plaintext))
      × (r.written ≡ record { out_len = some (length plaintext); out_buf = some plaintext })
cn_mesh_open_realtime-cn_mesh_seal_realtime c a b plaintext aad raw sealed_ms now_ms out out' lawful
      mesh ranges time plain small h drift unseen roomy =
    let (p, made, same) = cn_mesh_seal_realtime-out_buf c a plaintext aad sealed_ms out h in
    let s = seal_realtime-SealedAs c a.node plaintext aad sealed_ms made in
    let timely : IsTimely b.node p now_ms = record {
      drift = rw s.timestamp_ms drift;
      unseen = rw (s.node_id, s.epoch, s.sequence) unseen;
    } in
    let opened =
      open_realtime-seal_realtime c a.node b.node plaintext aad sealed_ms now_ms p lawful mesh made
        timely in
    let result =
      cn_mesh_open_realtime-to_bytes c b p aad now_ms out'
        (from_bytes-seal_realtime c a.node plaintext aad sealed_ms lawful ranges time plain made) in
    rw (same, result, opened, respond-ok plaintext out' _ roomy small) (refl, refl)

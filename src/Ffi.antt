-- ===== src/Ffi.antt =====
-- src/ffi.rs: the C interface. A call gets a handle that may be null, and what the caller passed for
-- each pointer; it returns its code, the handle as it leaves it, and what it wrote. The caller's part
-- of the contract is that a pointer that is not null is valid, and that the buffers do not overlap.
-- `catch_unwind` turns a panic into the code of `FfiParametroInvalido`. Nonces and seeds that the source
-- draws from `OsRng` are arguments. `cn_mesh_free` only releases memory.
mod Codes
mod RoundTrip
mod Tests
mod Losses
mod Restart
use cripto_endevs_comunity.Base.{
  ℕ, ◌+◌, ◌-◌, ◌%◌, ◌^◌, Bool, true, false, Option, some, none, List, [], ◌∷◌, length, ltb, ◌==◌,
  if◌then◌else◌,
}
use cripto_endevs_comunity.Error.{
  Error, Result, ok, err, panic, ◌>>=◌, ◌>>◌, ffi_parametro_invalido, ℤ, pos, negsuc, to_ffi_code,
}
use cripto_endevs_comunity.Crypto.{Crypto}
use cripto_endevs_comunity.Seed.{MasterSeed, generate, derive_wrap_key}
use cripto_endevs_comunity.Seed
use cripto_endevs_comunity.Packet.{Packet, to_bytes, from_bytes}
use cripto_endevs_comunity.Chrono.{
  ChronoMeshNode, seal_realtime, open_realtime, open_persisted_record, current_integrity_sha256,
}
use cripto_endevs_comunity.Chrono
use cripto_endevs_comunity.Chrono.Checkpoint.{export_checkpoint, restore_checkpoint}
use cripto_endevs_comunity.Wal.{ChronoWalJournal, encode_append_frame}
use cripto_endevs_comunity.Wal
use cripto_endevs_comunity.DualSlot.{DualSlotContainer, commit_state, recover_latest_valid}
use cripto_endevs_comunity.DualSlot

pub record CnMeshHandle : Type 0 where
  pub node : ChronoMeshNode
  pub wrap_key : List ℕ
  pub dual_slot : DualSlotContainer
  pub wal : ChronoWalJournal

-- An input `(ptr, len)`: a null pointer with a length, or the `len` bytes that it points to.
pub data Input : Type 0 where
  null : (len : ℕ) → Input
  bytes : List ℕ → Input

unfoldable pub slice_from_raw : Input → Result (List ℕ)
slice_from_raw (null len) = if len == 0 then ok [] else err ffi_parametro_invalido
slice_from_raw (bytes bs) = ok bs

-- An output `(out_buf, out_cap, out_len)`: the capacity of a buffer that is not null, and whether
-- `out_len` is not null.
pub record Output : Type 0 where
  pub buffer : Option ℕ
  pub has_len : Bool

-- What a call wrote to `*out_len`, and to the buffer from its start.
pub record Written : Type 0 where
  pub out_len : Option ℕ
  pub out_buf : Option (List ℕ)

abbrev pub nothing : Written
nothing = record { out_len = none; out_buf = none }

-- `n as i32`
pub as_i32 : ℕ → ℤ
as_i32 n = let k = n % 2 ^ 32 in if ltb k (2 ^ 31) then pos k else negsuc (2 ^ 32 - 1 - k)

abbrev pub has_room : Option ℕ → ℕ → Bool
has_room none size = false
has_room (some capacity) size = if ltb capacity size then false else true

pub write_output : List ℕ → Output → Result ℤ × Written
unfolding as_i32
write_output src out =
    if out.has_len
    then if has_room out.buffer (length src)
      then (ok (as_i32 (length src)), record { out_len = some (length src); out_buf = some src })
      else (err ffi_parametro_invalido, record { out_len = some (length src); out_buf = none })
    else (err ffi_parametro_invalido, nothing)

-- The value of `catch_unwind(..).unwrap_or_else(..)`, of what the closure returns.
pub code_of : Result ℤ → ℤ
code_of (ok code) = code
code_of (err e) = to_ffi_code e
code_of panic = to_ffi_code ffi_parametro_invalido

pub record Call : Type 0 where
  pub code : ℤ
  pub handle : Option CnMeshHandle
  pub written : Written

-- A call that ends without output.
abbrev pub answer : Result ℤ → Option CnMeshHandle → Call
answer r handle = record { code = code_of r; handle = handle; written = nothing }

-- A call on a null handle.
abbrev pub on_null : Call
on_null = answer (err ffi_parametro_invalido) none

-- The end of a call that writes what it computed.
pub respond : Result (List ℕ) → Output → CnMeshHandle → Call
unfolding write_output code_of
respond (ok src) out h =
    let (r, written) = write_output src out in
    record { code = code_of r; handle = some h; written = written }
respond (err e) out h = answer (err e) (some h)
respond panic out h = answer panic (some h)

-- `cn_generate_master_seed`: its code and what it writes, if the pointer is not null.
pub cn_generate_master_seed : (drawn : List ℕ) → (present : Bool) → ℤ × Option (List ℕ)
unfolding generate
cn_generate_master_seed drawn true = (pos 0, some (generate drawn).bytes)
cn_generate_master_seed drawn false = (to_ffi_code ffi_parametro_invalido, none)

-- The closure of `cn_mesh_new`: every failure is a null pointer.
unfoldable pub new_handle :
    Crypto
    → (seed context : Input) → (node_id boot_epoch max_time_drift_ms : ℕ) → Result CnMeshHandle
unfolding slice_from_raw
new_handle c (null len) context node_id boot_epoch max_time_drift_ms = err ffi_parametro_invalido
new_handle c (bytes seed_arr) context_in node_id boot_epoch max_time_drift_ms =
    if length seed_arr == 32
    then (do
      seed ← Seed.from_bytes seed_arr
      context ← slice_from_raw context_in
      ok (record {
        node = Chrono.new c seed.bytes context node_id boot_epoch max_time_drift_ms;
        wrap_key = derive_wrap_key c seed context;
        dual_slot = DualSlot.new;
        wal = Wal.new;
      }))
    else err ffi_parametro_invalido

abbrev pub non_null : Result CnMeshHandle → Option CnMeshHandle
non_null (ok h) = some h
non_null (err e) = none
non_null panic = none

pub cn_mesh_new :
    Crypto
    → (seed context : Input) → (node_id boot_epoch max_time_drift_ms : ℕ) → Option CnMeshHandle
unfolding new_handle
cn_mesh_new c seed context node_id boot_epoch max_time_drift_ms =
    non_null (new_handle c seed context node_id boot_epoch max_time_drift_ms)

-- Two inputs, read in their order.
abbrev pub two_slices : Input → Input → Result (List ℕ × List ℕ)
two_slices first second = do a ← slice_from_raw first; b ← slice_from_raw second; ok (a, b)

-- A packet and its associated data.
abbrev pub packet_slices : Input → Input → Result (Packet × List ℕ)
packet_slices packet aad = do
  slices ← two_slices packet aad
  p ← from_bytes slices.0
  ok (p, slices.1)

-- The bytes of a packet that was sealed.
abbrev pub raw_of : Result Packet → Result (List ℕ)
raw_of packet = do p ← packet; ok (to_bytes p)

pub cn_mesh_seal_realtime :
    Crypto → Option CnMeshHandle → (plaintext aad : Input) → (now_ms : ℕ) → Output → Call
unfolding slice_from_raw respond
cn_mesh_seal_realtime c none plaintext aad now_ms out = on_null
cn_mesh_seal_realtime c (some h) plaintext aad now_ms out = elim (two_slices plaintext aad) [
  | ok slices ↦
      let (packet, node) = seal_realtime c h.node slices.0 slices.1 now_ms in
      respond (raw_of packet) out (record h { node = node })
  | err e ↦ answer (err e) (some h)
  | panic ↦ answer panic (some h)
]

pub cn_mesh_open_realtime :
    Crypto → Option CnMeshHandle → (packet aad : Input) → (now_ms : ℕ) → Output → Call
unfolding slice_from_raw respond
cn_mesh_open_realtime c none packet aad now_ms out = on_null
cn_mesh_open_realtime c (some h) packet aad now_ms out = elim (packet_slices packet aad) [
  | ok slices ↦
      let (plaintext, node) = open_realtime c h.node slices.0 slices.1 now_ms in
      respond plaintext out (record h { node = node })
  | err e ↦ answer (err e) (some h)
  | panic ↦ answer panic (some h)
]

pub cn_mesh_open_persisted : Crypto → Option CnMeshHandle → (packet aad : Input) → Output → Call
unfolding slice_from_raw respond
cn_mesh_open_persisted c none packet aad out = on_null
cn_mesh_open_persisted c (some h) packet aad out =
    respond (do slices ← packet_slices packet aad; open_persisted_record c h.node slices.0 slices.1)
      out h

-- A packet that was sealed, in a frame: the journal moves on before anything is written.
pub frame_packet : Crypto → CnMeshHandle → Result Packet → Output → Call
unfolding respond
frame_packet c h (ok packet) out =
    let (frame, wal) = encode_append_frame c h.wal packet in
    respond frame out (record h { wal = wal })
frame_packet c h (err e) out = answer (err e) (some h)
frame_packet c h panic out = answer panic (some h)

pub cn_mesh_seal_wal_frame :
    Crypto → Option CnMeshHandle → (plaintext aad : Input) → (now_ms : ℕ) → Output → Call
unfolding slice_from_raw frame_packet
cn_mesh_seal_wal_frame c none plaintext aad now_ms out = on_null
cn_mesh_seal_wal_frame c (some h) plaintext aad now_ms out = elim (two_slices plaintext aad) [
  | ok slices ↦
      let (packet, node) = seal_realtime c h.node slices.0 slices.1 now_ms in
      frame_packet c (record h { node = node }) packet out
  | err e ↦ answer (err e) (some h)
  | panic ↦ answer panic (some h)
]

-- The nonces are those of the checkpoint and of the slot.
pub cn_mesh_export_dualslot_state :
    Crypto → Option CnMeshHandle → (nonce slot_nonce : List ℕ) → Output → Call
unfolding respond
cn_mesh_export_dualslot_state c none nonce slot_nonce out = on_null
cn_mesh_export_dualslot_state c (some h) nonce slot_nonce out =
    elim (export_checkpoint c h.node h.wrap_key nonce) [
      | ok checkpoint ↦
          let (generation, dual_slot) =
            commit_state c h.dual_slot checkpoint h.wrap_key slot_nonce in
          respond (do g ← generation; DualSlot.to_bytes dual_slot) out
            (record h { dual_slot = dual_slot })
      | err e ↦ answer (err e) (some h)
      | panic ↦ answer panic (some h)
    ]

-- What `cn_mesh_import_dualslot_state` reads: the container and the checkpoint in it.
unfoldable pub import_slices : Crypto → CnMeshHandle → Input → Result (DualSlotContainer × List ℕ)
unfolding slice_from_raw
import_slices c h state = do
  raw ← slice_from_raw state
  container ← DualSlot.from_bytes raw
  recovered ← recover_latest_valid c container h.wrap_key
  ok (container, recovered.1)

-- The container is kept only if the node was restored.
pub adopt : CnMeshHandle → Result (Unit {0}) → ChronoMeshNode → DualSlotContainer → Call
unfolding code_of
adopt h (ok _) node container =
    answer (ok (pos 0)) (some (record h { node = node; dual_slot = container }))
adopt h (err e) node container = answer (err e) (some (record h { node = node }))
adopt h panic node container = answer panic (some (record h { node = node }))

pub cn_mesh_import_dualslot_state : Crypto → Option CnMeshHandle → (state : Input) → Call
unfolding import_slices adopt
cn_mesh_import_dualslot_state c none state = on_null
cn_mesh_import_dualslot_state c (some h) state = elim (import_slices c h state) [
  | ok read ↦
      let (restored, node) = restore_checkpoint c h.node read.1 h.wrap_key in
      adopt h restored node read.0
  | err e ↦ answer (err e) (some h)
  | panic ↦ answer panic (some h)
]

-- `cn_mesh_get_integrity_sha256`: its code and what it writes.
pub cn_mesh_get_integrity_sha256 : Option CnMeshHandle → (present : Bool) → ℤ × Option (List ℕ)
unfolding current_integrity_sha256
cn_mesh_get_integrity_sha256 none present = (to_ffi_code ffi_parametro_invalido, none)
cn_mesh_get_integrity_sha256 (some h) false = (to_ffi_code ffi_parametro_invalido, none)
cn_mesh_get_integrity_sha256 (some h) true = (pos 0, some (current_integrity_sha256 h.node))

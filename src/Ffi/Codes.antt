-- ===== src/Ffi/Codes.antt =====
-- What the code of a call says of the output.
use cripto_endevs_comunity.Base.{
  ℕ, ◌^◌, ◌%◌, ◌<◌, ◌≤◌, ◌≡◌, ◌∙◌, refl, ltb, ltb→lt, lt→ltb, Option, some, none, List, length,
  arith, inl, inr, Bool-cases,
}
use cripto_endevs_comunity.Error.{
  Error, Result, ok, err, panic, pos, negsuc, to_ffi_code, Result-cases, base64, paquete_corrupto,
  version_no_soportada, autenticacion, utf8, cifrado, semilla_invalida, enlace_invalido,
  modo_invalido, repetido, fuera_de_orden, estado_sin_reanudar, tiempo_expirado_o_invalido,
  aad_demasiado_largo, integridad_contexto_corrupta, ffi_parametro_invalido, io,
}
use cripto_endevs_comunity.Crypto.{Crypto}
use cripto_endevs_comunity.Packet.{Packet}
use cripto_endevs_comunity.Chrono.Checkpoint.{export_checkpoint}
use cripto_endevs_comunity.Wal.{encode_append_frame}
use cripto_endevs_comunity.Ffi.{
  CnMeshHandle, Input, Output, Call, has_room, as_i32, write_output, code_of, respond, answer,
  two_slices, packet_slices, frame_packet, cn_mesh_seal_realtime, cn_mesh_open_realtime,
  cn_mesh_open_persisted, cn_mesh_seal_wal_frame, cn_mesh_export_dualslot_state,
}

-- A call wrote nothing to its buffer and returned the code of an error, or it wrote an output whole,
-- with its length, and returned that length, or the cast of a length that no `i32` holds.
pub data Outcome (r : Call) : Type 0 where
  refused : (k : ℕ) → k ≤ 16 → r.code ≡ negsuc k → r.written.out_buf ≡ none → Outcome r
  delivered :
      (src : List ℕ)
      → length src < 2 ^ 31
      → r.code ≡ pos (length src)
      → r.written ≡ record { out_len = some (length src); out_buf = some src }
      → Outcome r
  wrapped :
      (src : List ℕ)
      → 2 ^ 31 ≤ length src
      → r.code ≡ as_i32 (length src)
      → r.written ≡ record { out_len = some (length src); out_buf = some src }
      → Outcome r

pub as_i32-pos : (n : ℕ) → n < 2 ^ 31 → as_i32 n ≡ pos n
unfolding as_i32
as_i32-pos n small =
    let e : n % 2 ^ 32 ≡ n = omega arith in rw (as_i32, e, lt→ltb n (2 ^ 31) small) refl

to_ffi_code_negative : (e : Error) → (k : ℕ) × (k ≤ 16) × (to_ffi_code e ≡ negsuc k)
unfolding to_ffi_code
to_ffi_code_negative (base64 t) = (0, omega arith, refl)
to_ffi_code_negative paquete_corrupto = (1, omega arith, refl)
to_ffi_code_negative (version_no_soportada v) = (2, omega arith, refl)
to_ffi_code_negative autenticacion = (3, omega arith, refl)
to_ffi_code_negative utf8 = (4, omega arith, refl)
to_ffi_code_negative cifrado = (5, omega arith, refl)
to_ffi_code_negative semilla_invalida = (6, omega arith, refl)
to_ffi_code_negative enlace_invalido = (7, omega arith, refl)
to_ffi_code_negative modo_invalido = (8, omega arith, refl)
to_ffi_code_negative repetido = (9, omega arith, refl)
to_ffi_code_negative fuera_de_orden = (10, omega arith, refl)
to_ffi_code_negative estado_sin_reanudar = (11, omega arith, refl)
to_ffi_code_negative tiempo_expirado_o_invalido = (12, omega arith, refl)
to_ffi_code_negative aad_demasiado_largo = (13, omega arith, refl)
to_ffi_code_negative integridad_contexto_corrupta = (14, omega arith, refl)
to_ffi_code_negative ffi_parametro_invalido = (15, omega arith, refl)
to_ffi_code_negative (io t) = (16, omega arith, refl)

refused_with :
    {r : Call} (e : Error) → r.code ≡ to_ffi_code e → r.written.out_buf ≡ none → Outcome r
refused_with e h empty =
    let (k, small, same) = to_ffi_code_negative e in refused k small (ground (arith, same)) empty

answer-Outcome : (e : Error) (handle : Option CnMeshHandle) → Outcome (answer (err e) handle)
unfolding code_of
answer-Outcome e handle = refused_with e refl refl

answer_panic-Outcome : (handle : Option CnMeshHandle) → Outcome (answer panic handle)
unfolding code_of
answer_panic-Outcome handle = refused_with ffi_parametro_invalido refl refl

-- A whole output, with the code that its length becomes.
written-Outcome :
    {r : Call} (src : List ℕ)
    → r.code ≡ as_i32 (length src)
    → r.written ≡ record { out_len = some (length src); out_buf = some src }
    → Outcome r
written-Outcome src code whole = elim (Bool-cases (ltb (length src) (2 ^ 31))) [
  | inl small ↦
      delivered src (ltb→lt _ _ small) (code ∙ as_i32-pos (length src) (ltb→lt _ _ small)) whole
  | inr large ↦ wrapped src (ground arith) code whole
]

respond-Outcome :
    (r : Result (List ℕ)) (out : Output) (h : CnMeshHandle) → Outcome (respond r out h)
unfolding respond write_output code_of
respond-Outcome (ok src) out h = elim (Bool-cases out.has_len) [
  | inl len ↦ elim (Bool-cases (has_room out.buffer (length src))) [
    | inl room ↦
        written-Outcome src (rw (respond, write_output, len, room, code_of) refl)
          (rw (respond, write_output, len, room) refl)
    | inr small ↦
        refused_with ffi_parametro_invalido (rw (respond, write_output, len, small, code_of) refl)
          (rw (respond, write_output, len, small) refl)
  ]
  | inr null ↦
      refused_with ffi_parametro_invalido (rw (respond, write_output, null, code_of) refl)
        (rw (respond, write_output, null) refl)
]
respond-Outcome (err e) out h = answer-Outcome e (some h)
respond-Outcome panic out h = answer_panic-Outcome (some h)

frame_packet-Outcome :
    (c : Crypto) (h : CnMeshHandle) (packet : Result Packet) (out : Output)
    → Outcome (frame_packet c h packet out)
unfolding frame_packet
frame_packet-Outcome c h (ok p) out =
    respond-Outcome (encode_append_frame c h.wal p).0 out
      (record h { wal = (encode_append_frame c h.wal p).1 })
frame_packet-Outcome c h (err e) out = answer-Outcome e (some h)
frame_packet-Outcome c h panic out = answer_panic-Outcome (some h)

module _ (c : Crypto) (now_ms : ℕ) (out : Output) where
  cn_mesh_seal_realtime-Outcome :
      (h : Option CnMeshHandle) (plaintext aad : Input)
      → Outcome (cn_mesh_seal_realtime c h plaintext aad now_ms out)
  unfolding cn_mesh_seal_realtime
  cn_mesh_seal_realtime-Outcome none plaintext aad = answer-Outcome ffi_parametro_invalido none
  cn_mesh_seal_realtime-Outcome (some h) plaintext aad =
      elim (Result-cases (two_slices plaintext aad)) [
        | inl (slices, e) ↦ rw (cn_mesh_seal_realtime, e) (respond-Outcome _ out _)
        | inr (inl (x, e)) ↦ rw (cn_mesh_seal_realtime, e) (answer-Outcome x (some h))
        | inr (inr e) ↦ rw (cn_mesh_seal_realtime, e) (answer_panic-Outcome (some h))
      ]

  cn_mesh_open_realtime-Outcome :
      (h : Option CnMeshHandle) (packet aad : Input)
      → Outcome (cn_mesh_open_realtime c h packet aad now_ms out)
  unfolding cn_mesh_open_realtime
  cn_mesh_open_realtime-Outcome none packet aad = answer-Outcome ffi_parametro_invalido none
  cn_mesh_open_realtime-Outcome (some h) packet aad =
      elim (Result-cases (packet_slices packet aad)) [
        | inl (slices, e) ↦ rw (cn_mesh_open_realtime, e) (respond-Outcome _ out _)
        | inr (inl (x, e)) ↦ rw (cn_mesh_open_realtime, e) (answer-Outcome x (some h))
        | inr (inr e) ↦ rw (cn_mesh_open_realtime, e) (answer_panic-Outcome (some h))
      ]

  cn_mesh_open_persisted-Outcome :
      (h : Option CnMeshHandle) (packet aad : Input)
      → Outcome (cn_mesh_open_persisted c h packet aad out)
  unfolding cn_mesh_open_persisted
  cn_mesh_open_persisted-Outcome none packet aad = answer-Outcome ffi_parametro_invalido none
  cn_mesh_open_persisted-Outcome (some h) packet aad = respond-Outcome _ out h

  cn_mesh_seal_wal_frame-Outcome :
      (h : Option CnMeshHandle) (plaintext aad : Input)
      → Outcome (cn_mesh_seal_wal_frame c h plaintext aad now_ms out)
  unfolding cn_mesh_seal_wal_frame
  cn_mesh_seal_wal_frame-Outcome none plaintext aad = answer-Outcome ffi_parametro_invalido none
  cn_mesh_seal_wal_frame-Outcome (some h) plaintext aad =
      elim (Result-cases (two_slices plaintext aad)) [
        | inl (slices, e) ↦ rw (cn_mesh_seal_wal_frame, e) (frame_packet-Outcome c _ _ out)
        | inr (inl (x, e)) ↦ rw (cn_mesh_seal_wal_frame, e) (answer-Outcome x (some h))
        | inr (inr e) ↦ rw (cn_mesh_seal_wal_frame, e) (answer_panic-Outcome (some h))
      ]

  cn_mesh_export_dualslot_state-Outcome :
      (h : Option CnMeshHandle) (nonce slot_nonce : List ℕ)
      → Outcome (cn_mesh_export_dualslot_state c h nonce slot_nonce out)
  unfolding cn_mesh_export_dualslot_state
  cn_mesh_export_dualslot_state-Outcome none nonce slot_nonce =
      answer-Outcome ffi_parametro_invalido none
  cn_mesh_export_dualslot_state-Outcome (some h) nonce slot_nonce =
      elim (Result-cases (export_checkpoint c h.node h.wrap_key nonce)) [
        | inl (checkpoint, e) ↦ rw (cn_mesh_export_dualslot_state, e) (respond-Outcome _ out _)
        | inr (inl (x, e)) ↦ rw (cn_mesh_export_dualslot_state, e) (answer-Outcome x (some h))
        | inr (inr e) ↦ rw (cn_mesh_export_dualslot_state, e) (answer_panic-Outcome (some h))
      ]

-- Each of the five calls that write an output with its length (sealing, opening, opening of a record,
-- sealing of a frame, export of the state), on any handle and any arguments, does one of three
-- things. It writes nothing to its buffer and returns the code of an error, from -1 to -17. Or it
-- writes an output of less than 2^31 bytes whole, with its length, and returns that length. Or it
-- writes a longer output whole, with its length, and returns the length cast to an `i32`.
pub calls-Outcome :
    (c : Crypto) (h : Option CnMeshHandle) (first second : Input) (nonce slot_nonce : List ℕ)
    (now_ms : ℕ) (out : Output)
    → Outcome (cn_mesh_seal_realtime c h first second now_ms out)
      × Outcome (cn_mesh_open_realtime c h first second now_ms out)
      × Outcome (cn_mesh_open_persisted c h first second out)
      × Outcome (cn_mesh_seal_wal_frame c h first second now_ms out)
      × Outcome (cn_mesh_export_dualslot_state c h nonce slot_nonce out)
calls-Outcome c h first second nonce slot_nonce now_ms out = (
  cn_mesh_seal_realtime-Outcome c now_ms out h first second,
  cn_mesh_open_realtime-Outcome c now_ms out h first second,
  cn_mesh_open_persisted-Outcome c now_ms out h first second,
  cn_mesh_seal_wal_frame-Outcome c now_ms out h first second,
  cn_mesh_export_dualslot_state-Outcome c now_ms out h nonce slot_nonce,
)

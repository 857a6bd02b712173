-- ===== src/Ffi/Losses/Tests.antt =====
-- A frame that is lost, for a buffer of one byte.
use cripto_endevs_comunity.Base.{
  ℕ, ◌+◌, ◌≡◌, ◌≢◌, refl, false, Option, some, List, [], ◌∷◌, ◌++◌, arith, length,
}
use cripto_endevs_comunity.Error.{Result, ok, err, panic, negsuc, integridad_contexto_corrupta}
use cripto_endevs_comunity.Bytes.{be, try_u32, saturating_add}
use cripto_endevs_comunity.Crypto.Toy.{toy, toy-IsLawful, tag, spread, mix}
use cripto_endevs_comunity.Packet.{IsPacket, to_bytes, build_internal_aad_v3}
use cripto_endevs_comunity.Chrono.{
  ChronoMeshNode, packet_okm, derive_packet_crypto, seal_packet, seal_realtime, draw_sequence,
  note_packet, open_realtime, open_verify, open_commit, fold_packet_into_integrity_hash,
}
use cripto_endevs_comunity.Chrono
use cripto_endevs_comunity.Wal
use cripto_endevs_comunity.Ffi.{
  CnMeshHandle, bytes, Output, Call, respond, write_output, slice_from_raw,
}
use cripto_endevs_comunity.Ffi.{cn_mesh_seal_wal_frame, frame_packet, has_room}
use cripto_endevs_comunity.Wal.{
  compute_frame_sha256, encode_append_frame, frame_bytes, recover_from_bytes,
}
use cripto_endevs_comunity.Wal.Log.{IsStorable, append_all}
use cripto_endevs_comunity.Ffi.Losses.{cn_mesh_seal_wal_frame_loses}
use cripto_endevs_comunity.Ffi.Tests.{alice, large, small, or_empty, sample, packet, sealed}

-- A journal of one frame; the frame of the next packet is lost, for a buffer of one byte.
sample-IsPacket : IsPacket sample
sample-IsPacket = record {
  version = omega arith;
  flags = omega arith;
  node_id = omega arith;
  epoch = omega arith;
  sequence = omega arith;
  timestamp_ms = omega arith;
  nonce = refl;
  nonce_bytes = ground arith;
  ciphertext = ground arith;
}

length-sample : length (to_bytes sample) ≡ 62
unfolding to_bytes be
length-sample = refl

sample-IsStorable : IsStorable sample
sample-IsStorable = record {
  valid = sample-IsPacket;
  known = (omega arith, omega arith);
  tagged = omega arith;
  fits = omega (arith, length-sample);
}

abbrev writer : CnMeshHandle
writer = record alice { wal = (append_all toy Wal.new (sample ∷ [])).1 }

abbrev or_bytes : Result (List ℕ) → List ℕ
or_bytes (ok bs) = bs
or_bytes (err e) = []
or_bytes panic = []

abbrev log : List ℕ
log = or_bytes (append_all toy Wal.new (sample ∷ [])).0

abbrev framing : Option CnMeshHandle → Output → Call
framing h out = cn_mesh_seal_wal_frame toy h (bytes (1 ∷ 2 ∷ [])) (bytes (9 ∷ [])) 10000 out

abbrev frame : List ℕ
frame = or_empty (framing (framing (some writer) small).handle large).written.out_buf

wrote : append_all toy Wal.new (sample ∷ []) ≡ (ok log, writer.wal)
unfolding append_all encode_append_frame frame_bytes compute_frame_sha256 try_u32 saturating_add be
    spread mix to_bytes
wrote = refl

length-packet : length (to_bytes packet) ≡ 60
unfolding to_bytes be seal_realtime seal_packet Chrono.new derive_packet_crypto packet_okm
    build_internal_aad_v3 try_u32 tag spread mix
length-packet = refl

small_for_frame : has_room small.buffer (72 + length (to_bytes packet)) ≡ false
small_for_frame = ground (arith, length-packet)

head_moves :
    compute_frame_sha256 toy writer.wal.head_sha256 (to_bytes packet) ≢ writer.wal.head_sha256
unfolding append_all encode_append_frame frame_bytes compute_frame_sha256 try_u32 saturating_add be
    spread mix to_bytes seal_realtime seal_packet Chrono.new derive_packet_crypto packet_okm
    build_internal_aad_v3 tag
head_moves = λ e. ground arith

frame-written : (framing (framing (some writer) small).handle large).written.out_buf ≡ some frame
unfolding cn_mesh_seal_wal_frame frame_packet slice_from_raw respond write_output seal_realtime
    seal_packet Chrono.new derive_packet_crypto packet_okm build_internal_aad_v3 try_u32 be tag
    spread mix to_bytes draw_sequence note_packet append_all encode_append_frame frame_bytes
    compute_frame_sha256 saturating_add
frame-written = refl

cn_mesh_seal_wal_frame_loses_example :
    ((framing (some writer) small).code ≡ negsuc 15)
    × (recover_from_bytes toy (log ++ frame) ≡ err integridad_contexto_corrupta)
cn_mesh_seal_wal_frame_loses_example =
    cn_mesh_seal_wal_frame_loses toy writer (sample ∷ []) packet log frame (1 ∷ 2 ∷ []) (9 ∷ [])
      (1 ∷ 2 ∷ []) (9 ∷ []) 10000 10000 small large toy-IsLawful (sample-IsStorable, tt) wrote
      sealed (omega (arith, length-packet)) small_for_frame head_moves frame-written

-- ===== src/Ffi/Tests.antt =====
-- Two handles of one mesh, with calls on them.
use cripto_endevs_comunity.Base.{
  ℕ, ◌≡◌, refl, subst, sym, true, Option, some, none, List, [], ◌∷◌, replicate, arith,
}
use cripto_endevs_comunity.Error.{Result, ok, err, panic, pos, negsuc}
use cripto_endevs_comunity.Bytes.{be, try_u32, saturating_add, checked_add}
use cripto_endevs_comunity.Crypto.Toy.{toy, toy-IsLawful, tag, spread, mix}
use cripto_endevs_comunity.Packet.{Packet, to_bytes, from_bytes, build_internal_aad_v3}
use cripto_endevs_comunity.Window.{check}
use cripto_endevs_comunity.Chrono.{
  ChronoMeshNode, packet_okm, derive_packet_crypto, seal_packet, seal_realtime, draw_sequence,
  note_packet, open_realtime, open_verify, open_commit, fold_packet_into_integrity_hash,
}
use cripto_endevs_comunity.Chrono
use cripto_endevs_comunity.Chrono.Peers.{get}
use cripto_endevs_comunity.Chrono.Mesh.{new-SameMesh}
use cripto_endevs_comunity.Chrono.Ranges.{IsSender, from_bytes-seal_realtime}
use cripto_endevs_comunity.Chrono.Checkpoint.RoundTrip.{IsNode}
use cripto_endevs_comunity.DualSlot
use cripto_endevs_comunity.Wal
use cripto_endevs_comunity.Ffi.{
  CnMeshHandle, bytes, Output, Call, respond, write_output, slice_from_raw, cn_mesh_seal_realtime,
  cn_mesh_open_realtime,
}
use cripto_endevs_comunity.Ffi.{
  cn_mesh_open_persisted, cn_mesh_seal_wal_frame, cn_mesh_export_dualslot_state,
  cn_mesh_import_dualslot_state, nothing, null,
}
use cripto_endevs_comunity.Chrono.Checkpoint.{
  export_checkpoint, raw_state, peers_bytes, peer_bytes, checkpoint_aad,
}
use cripto_endevs_comunity.Wal.{
  compute_frame_sha256, encode_append_frame, frame_bytes, recover_from_bytes,
}
use cripto_endevs_comunity.DualSlot.{
  DualSlotContainer, commit_state, commit_parts, next_generation, seal_slot, slot_bytes,
  replace_older,
}
use cripto_endevs_comunity.Ffi.Codes.{Outcome, calls-Outcome}
use cripto_endevs_comunity.Ffi.Restart.{cn_mesh_import_dualslot_state-cn_mesh_export_dualslot_state}
use cripto_endevs_comunity.Ffi.Losses.{cn_mesh_open_realtime-twice}
use cripto_endevs_comunity.Ffi.RoundTrip.{IsRoomy, cn_mesh_open_realtime-cn_mesh_seal_realtime}

abbrev pub seed : List ℕ
seed = 1 ∷ replicate 31 5

abbrev pub handle_of : ℕ → CnMeshHandle
handle_of node_id = record {
  node = Chrono.new toy seed (1 ∷ []) node_id 3 1000;
  wrap_key = replicate 32 8;
  dual_slot = DualSlot.new;
  wal = Wal.new;
}

abbrev pub alice : CnMeshHandle
alice = handle_of 7

abbrev bob : CnMeshHandle
bob = handle_of 8

abbrev pub large : Output
large = record { buffer = some 4096; has_len = true }

abbrev pub small : Output
small = record { buffer = some 1; has_len = true }

abbrev pub or_empty : Option (List ℕ) → List ℕ
or_empty none = []
or_empty (some bs) = bs

abbrev sealing : Call
sealing = cn_mesh_seal_realtime toy (some alice) (bytes (1 ∷ 2 ∷ [])) (bytes (9 ∷ [])) 10000 large

abbrev raw : List ℕ
raw = or_empty sealing.written.out_buf

alice-IsSender : IsSender alice.node
unfolding Chrono.new
alice-IsSender = record { node_id = omega arith; epoch = omega arith; tx_seq = omega arith }

sealing-raw : sealing.written.out_buf ≡ some raw
unfolding cn_mesh_seal_realtime slice_from_raw respond write_output seal_realtime seal_packet
    Chrono.new derive_packet_crypto packet_okm build_internal_aad_v3 try_u32 be tag spread mix
    to_bytes draw_sequence note_packet
sealing-raw = refl

bob_has_room : IsRoomy large 2
bob_has_room = record { has_len = refl; room = refl }

bob_is_new : check (Chrono.or_default (get 7 3 bob.node.peers)) 0 bob.node.replay_window ≡ ok tt
unfolding Chrono.new get check
bob_is_new = refl

cn_mesh_open_realtime-cn_mesh_seal_realtime_example :
    let r : Call = cn_mesh_open_realtime toy (some bob) (bytes raw) (bytes (9 ∷ [])) 10200 large in
    (r.code ≡ pos 2) × (r.written ≡ record { out_len = some 2; out_buf = some (1 ∷ 2 ∷ []) })
unfolding Chrono.new
cn_mesh_open_realtime-cn_mesh_seal_realtime_example =
    cn_mesh_open_realtime-cn_mesh_seal_realtime toy alice bob (1 ∷ 2 ∷ []) (9 ∷ []) raw 10000 10200
      large large toy-IsLawful (new-SameMesh toy seed (1 ∷ []) 7 8 3 3 1000 1000) alice-IsSender
      (omega arith) (omega arith, (omega arith, tt)) (omega arith) sealing-raw (omega arith)
      bob_is_new bob_has_room

calls-Outcome_example :
    Outcome (cn_mesh_seal_realtime toy none (bytes []) (null 3) 10 small)
    × Outcome (cn_mesh_open_realtime toy none (bytes []) (null 3) 10 small)
    × Outcome (cn_mesh_open_persisted toy none (bytes []) (null 3) small)
    × Outcome (cn_mesh_seal_wal_frame toy none (bytes []) (null 3) 10 small)
    × Outcome (cn_mesh_export_dualslot_state toy none [] [] small)
calls-Outcome_example = calls-Outcome toy none (bytes []) (null 3) [] [] 10 small

abbrev pub or_packet : Result Packet → Packet → Packet
or_packet (ok p) other = p
or_packet (err e) other = other
or_packet panic other = other

-- A packet from elsewhere.
abbrev pub sample : Packet
sample = record {
  version = 3;
  flags = 0;
  node_id = 4;
  epoch = 1;
  sequence = 5;
  timestamp_ms = 900;
  nonce = replicate 12 7;
  ciphertext = replicate 20 9;
}

-- Bob opens the packet of alice with room for one byte.
abbrev pub packet : Packet
packet = or_packet (seal_realtime toy alice.node (1 ∷ 2 ∷ []) (9 ∷ []) 10000).0 sample

pub sealed : (seal_realtime toy alice.node (1 ∷ 2 ∷ []) (9 ∷ []) 10000).0 ≡ ok packet
unfolding seal_realtime seal_packet Chrono.new derive_packet_crypto packet_okm build_internal_aad_v3
    try_u32 be tag spread mix draw_sequence note_packet
sealed = refl

raw_is : raw ≡ to_bytes packet
unfolding cn_mesh_seal_realtime slice_from_raw respond write_output seal_realtime seal_packet
    Chrono.new derive_packet_crypto packet_okm build_internal_aad_v3 try_u32 be tag spread mix
    to_bytes draw_sequence note_packet
raw_is = refl

raw-packet : from_bytes raw ≡ ok packet
raw-packet =
    subst (λ (bs : List ℕ). from_bytes bs ≡ ok packet) (sym raw_is)
      (from_bytes-seal_realtime toy alice.node (1 ∷ 2 ∷ []) (9 ∷ []) 10000 toy-IsLawful
        alice-IsSender (omega arith) (omega arith, (omega arith, tt)) sealed)

bob_opens : (open_realtime toy bob.node packet (9 ∷ []) 10200).0 ≡ ok (1 ∷ 2 ∷ [])
unfolding seal_realtime seal_packet Chrono.new derive_packet_crypto packet_okm build_internal_aad_v3
    try_u32 be tag spread mix draw_sequence note_packet open_realtime open_verify open_commit get
    check
bob_opens = refl

bob_has_none : get packet.node_id packet.epoch bob.node.peers ≡ none
unfolding Chrono.new get
bob_has_none = refl

cn_mesh_open_realtime-twice_example :
    let first : Call =
      cn_mesh_open_realtime toy (some bob) (bytes raw) (bytes (9 ∷ [])) 10200 small in
    let again : Call =
      cn_mesh_open_realtime toy first.handle (bytes raw) (bytes (9 ∷ [])) 10300 large in
    (first.code ≡ negsuc 15)
    × (first.written.out_buf ≡ none)
    × (again.code ≡ negsuc 9)
    × (again.written.out_buf ≡ none)
unfolding Chrono.new seal_realtime seal_packet build_internal_aad_v3 try_u32 derive_packet_crypto
cn_mesh_open_realtime-twice_example =
    cn_mesh_open_realtime-twice toy bob packet raw (9 ∷ []) (1 ∷ 2 ∷ []) 10200 10300 small large
      (omega arith) (omega arith) bob_has_none raw-packet bob_opens refl (omega arith)

-- The state of a node that has received, imported by one that has just started.
abbrev used : CnMeshHandle
used = record alice {
  node = record alice.node {
    epoch = 4;
    tx_seq = 9;
    peers =
        record {
          node = 8;
          epoch = 2;
          state = record { highest_seen = some 5; seen_bitmap = 33; received_count = 2 };
        }
        ∷ [];
  };
}

used-IsNode : IsNode used.node
unfolding Chrono.new be
used-IsNode = record {
  node_id = omega arith;
  epoch = omega arith;
  tx_seq = omega arith;
  hash = refl;
  count = omega arith;
  peers = (
    record { node = omega arith; epoch = omega arith; highest = omega arith; bitmap = omega arith },
    tt,
  );
  sorted = (tt, tt);
}

abbrev exporting : Call
exporting = cn_mesh_export_dualslot_state toy (some used) (replicate 12 4) (replicate 12 6) large

exporting-raw : exporting.written.out_buf ≡ some (or_empty exporting.written.out_buf)
unfolding cn_mesh_export_dualslot_state respond write_output export_checkpoint raw_state peers_bytes
    peer_bytes checkpoint_aad commit_state commit_parts next_generation seal_slot slot_bytes
    replace_older DualSlot.to_bytes try_u32 checked_add be tag spread mix Chrono.new
exporting-raw = refl

cn_mesh_import_dualslot_state-cn_mesh_export_dualslot_state_example :
    (d : DualSlotContainer) × (exporting.handle ≡ some (record used { dual_slot = d }))
    × (cn_mesh_import_dualslot_state toy (some alice) (bytes (or_empty exporting.written.out_buf))
        ≡ record {
          code = pos 0;
          handle = some (record alice {
            node = record alice.node {
              epoch = 5;
              tx_seq = 9;
              peers =
                  record {
                    node = 8;
                    epoch = 2;
                    state = record { highest_seen = some 5; seen_bitmap = 33; received_count = 0 };
                  }
                  ∷ [];
            };
            dual_slot = d;
          });
          written = nothing;
        })
unfolding Chrono.new saturating_add
cn_mesh_import_dualslot_state-cn_mesh_export_dualslot_state_example =
    cn_mesh_import_dualslot_state-cn_mesh_export_dualslot_state toy used alice (replicate 12 4)
      (replicate 12 6) (or_empty exporting.written.out_buf) large toy-IsLawful used-IsNode
      (record { a = omega arith; b = omega arith }) refl refl refl refl refl exporting-raw

-- ===== src/Chrono/Checkpoint/Tests.antt =====
-- A node in use, its checkpoint, and what becomes of its counter.
use cripto_endevs_comunity.Base.{ℕ, ◌^◌, ◌-◌, some, ◌≡◌, refl, List, [], ◌∷◌, replicate, arith}
use cripto_endevs_comunity.Error.{Result, ok, err, panic, cifrado}
use cripto_endevs_comunity.Bytes.{
  be, try_u32, saturating_add, checked_add, index, slice, slice_from, read_be, from_be,
}
use cripto_endevs_comunity.Crypto.Toy.{toy, toy-IsLawful, tag, spread, mix}
use cripto_endevs_comunity.Packet.{Packet, build_internal_aad_v3}
use cripto_endevs_comunity.Chrono.Peers.{insert}
use cripto_endevs_comunity.Chrono.{
  ChronoMeshNode, packet_okm, derive_packet_crypto, seal_packet, seal_realtime, zeros_32,
}
use cripto_endevs_comunity.Chrono.{draw_sequence, note_packet}
use cripto_endevs_comunity.Chrono.Checkpoint.{
  export_checkpoint, restore_checkpoint, raw_state, peers_bytes, peer_bytes, checkpoint_aad,
  decode_checkpoint, decode_raw, read_peers, read_peer,
}
use cripto_endevs_comunity.Chrono.Checkpoint.RoundTrip.{
  IsNode, restore_checkpoint-export_checkpoint,
}
use cripto_endevs_comunity.Chrono.Counter.{seal_realtime_wraps, seal_realtime-restore_checkpoint}
use cripto_endevs_comunity.Chrono.Tests.{seed, or_packet, other}

-- A node that has received from one peer.
abbrev used : ChronoMeshNode
used = record {
  mesh_root_key = replicate 32 1;
  context_domain_hash = replicate 32 2;
  packet_prk = replicate 32 3;
  node_id = 7;
  epoch = 4;
  tx_seq = 9;
  max_time_drift_ms = 1000;
  replay_window = 128;
  peers =
      record {
        node = 8;
        epoch = 2;
        state = record { highest_seen = some 5; seen_bitmap = 33; received_count = 2 };
      }
      ∷ [];
  multiset_integrity_hash = replicate 32 6;
}

used-IsNode : IsNode used
used-IsNode = record {
  node_id = omega arith;
  epoch = omega arith;
  tx_seq = omega arith;
  hash = refl;
  count = omega arith;
  peers = (
    record { node = omega arith; epoch = omega arith; highest = omega arith; bitmap = omega arith },
    tt,
  );
  sorted = (tt, tt);
}

abbrev rebooted : ChronoMeshNode
rebooted = record used { epoch = 2; tx_seq = 0; peers = []; multiset_integrity_hash = zeros_32 }

abbrev or_empty : Result (List ℕ) → List ℕ
or_empty (ok bytes) = bytes
or_empty (err e) = []
or_empty panic = []

abbrev checkpoint : List ℕ
checkpoint = or_empty (export_checkpoint toy used seed (replicate 12 4))

exported : export_checkpoint toy used seed (replicate 12 4) ≡ ok checkpoint
unfolding export_checkpoint raw_state peers_bytes peer_bytes checkpoint_aad try_u32 be tag spread
    mix
exported = refl

restore_checkpoint-export_checkpoint_example : restore_checkpoint toy rebooted checkpoint seed ≡ (
  ok tt,
  record used {
    epoch = 5;
    peers =
        record {
          node = 8;
          epoch = 2;
          state = record { highest_seen = some 5; seen_bitmap = 33; received_count = 0 };
        }
        ∷ [];
  },
)
unfolding saturating_add
restore_checkpoint-export_checkpoint_example =
    restore_checkpoint-export_checkpoint toy used rebooted seed (replicate 12 4) checkpoint
      toy-IsLawful used-IsNode refl refl refl exported

abbrev last : ChronoMeshNode
last = record used { tx_seq = 2 ^ 64 - 1 }

abbrev after_wrap : Packet
after_wrap = or_packet (seal_realtime toy (seal_realtime toy last [] [] 10).1 [] [] 10).0 other

after_wrap-ok : (seal_realtime toy (seal_realtime toy last [] [] 10).1 [] [] 10).0 ≡ ok after_wrap
unfolding seal_realtime seal_packet draw_sequence note_packet derive_packet_crypto packet_okm
    build_internal_aad_v3 try_u32 be tag spread mix
after_wrap-ok = refl

seal_realtime_wraps_example :
    ((seal_realtime toy last [] [] 10).0 ≡ err cifrado)
    × (after_wrap.sequence ≡ 0)
    × (after_wrap.epoch ≡ 4)
seal_realtime_wraps_example =
    seal_realtime_wraps toy last [] [] 10 [] [] 10 after_wrap refl after_wrap-ok

-- The node boots with epoch 6, seals, and only then restores.
abbrev booted : ChronoMeshNode
booted = record used { epoch = 6; peers = [] }

abbrev before_restore : Packet
before_restore = or_packet (seal_realtime toy booted (1 ∷ []) [] 10).0 other

abbrev sealing : Result Packet × ChronoMeshNode
sealing =
    seal_realtime toy
      (restore_checkpoint toy (seal_realtime toy booted (1 ∷ []) [] 10).1 checkpoint seed).1
      (2 ∷ []) [] 10

before_restore-ok : (seal_realtime toy booted (1 ∷ []) [] 10).0 ≡ ok before_restore
unfolding seal_realtime seal_packet draw_sequence note_packet derive_packet_crypto packet_okm
    build_internal_aad_v3 try_u32 be tag spread mix
before_restore-ok = refl

after_restore-ok : sealing.0 ≡ ok (or_packet sealing.0 other)
unfolding seal_realtime seal_packet draw_sequence note_packet derive_packet_crypto packet_okm
    build_internal_aad_v3 try_u32 be tag spread mix restore_checkpoint export_checkpoint raw_state
    peers_bytes peer_bytes checkpoint_aad decode_checkpoint decode_raw read_peers read_peer index
    saturating_add checked_add insert slice slice_from read_be from_be
after_restore-ok = refl

seal_realtime-restore_checkpoint_example :
    ((or_packet sealing.0 other).sequence ≡ before_restore.sequence)
    × ((or_packet sealing.0 other).epoch ≡ before_restore.epoch)
    × ((or_packet sealing.0 other).node_id ≡ before_restore.node_id)
seal_realtime-restore_checkpoint_example =
    seal_realtime-restore_checkpoint toy used booted seed (replicate 12 4) checkpoint (1 ∷ []) []
      (2 ∷ []) [] 10 10 before_restore (or_packet sealing.0 other) toy-IsLawful used-IsNode refl
      refl refl exported (omega arith) (omega arith) refl before_restore-ok after_restore-ok

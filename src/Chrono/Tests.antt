-- ===== src/Chrono/Tests.antt =====
-- Two nodes of one mesh, and a packet that one seals and the other opens.
use mathlib.Core.Quot
use mathlib.Core.List.Permᴰ.{swap}
use cripto_endevs_comunity.Base.{ℕ, ◌≡◌, refl, List, [], ◌∷◌, replicate, arith}
use cripto_endevs_comunity.Error.{Result, ok, err, panic, repetido}
use cripto_endevs_comunity.Bytes.{be, try_u32}
use cripto_endevs_comunity.Crypto.Toy.{toy, toy-IsLawful, tag, spread, mix}
use cripto_endevs_comunity.Packet.{Packet, build_internal_aad_v3}
use cripto_endevs_comunity.Window.{check, record_seq}
use cripto_endevs_comunity.Chrono.Peers.{get, insert}
use cripto_endevs_comunity.Chrono.{
  ChronoMeshNode, new, packet_okm, derive_packet_crypto, seal_packet, seal_realtime,
  fold_packet_into_integrity_hash, open_realtime, or_default, verify_integrity_checkpoint,
  current_integrity_sha256,
}
use cripto_endevs_comunity.Chrono.{open_verify, open_commit, draw_sequence, note_packet}
use cripto_endevs_comunity.Chrono.Threads.{
  Running, fresh, Reach, here, next, draw, note, verify, commit, refuse, numbers,
}
use cripto_endevs_comunity.Chrono.Threads.Opened.{Reach-Distinct_opened}
use cripto_endevs_comunity.Chrono.Threads.Drawn.{Reach-Distinct_drawn}
use cripto_endevs_comunity.Chrono.Threads.Bag.{Reach-verify_integrity_checkpoint}
use cripto_endevs_comunity.Window.History.{Distinct}
use cripto_endevs_comunity.Chrono.Mesh.{new-SameMesh, IsTimely, open_realtime-seal_realtime}

abbrev pub seed : List ℕ
seed = replicate 32 5

abbrev alice : ChronoMeshNode
alice = new toy seed (1 ∷ []) 7 3 1000

abbrev bob : ChronoMeshNode
bob = new toy seed (1 ∷ []) 8 2 500

abbrev pub or_packet : Result Packet → Packet → Packet
or_packet (ok p) other = p
or_packet (err e) other = other
or_packet panic other = other

abbrev pub other : Packet
other = record {
  version = 3;
  flags = 0;
  node_id = 1;
  epoch = 1;
  sequence = 1;
  timestamp_ms = 10;
  nonce = replicate 12 3;
  ciphertext = replicate 16 4;
}

abbrev packet : Packet
packet = or_packet (seal_realtime toy alice (1 ∷ 2 ∷ []) (9 ∷ []) 10000).0 other

sealed : (seal_realtime toy alice (1 ∷ 2 ∷ []) (9 ∷ []) 10000).0 ≡ ok packet
unfolding seal_realtime seal_packet new derive_packet_crypto packet_okm build_internal_aad_v3
    try_u32 be tag spread mix
sealed = refl

bob_is_ready : IsTimely bob packet 10200
unfolding seal_realtime seal_packet new derive_packet_crypto packet_okm build_internal_aad_v3
    try_u32 be tag spread mix get check
bob_is_ready = record { drift = omega arith; unseen = refl }

open_realtime-seal_realtime_example : open_realtime toy bob packet (9 ∷ []) 10200 ≡ (
  ok (1 ∷ 2 ∷ []),
  record bob {
    peers =
        insert packet.node_id packet.epoch
          (record_seq
            (or_default (get packet.node_id packet.epoch bob.peers))
            packet.sequence
            bob.replay_window)
          bob.peers;
    multiset_integrity_hash =
        fold_packet_into_integrity_hash toy bob.multiset_integrity_hash packet;
  },
)
open_realtime-seal_realtime_example =
    open_realtime-seal_realtime toy alice bob (1 ∷ 2 ∷ []) (9 ∷ []) 10000 10200 packet toy-IsLawful
      (new-SameMesh toy seed (1 ∷ []) 7 8 3 2 1000 500) sealed bob_is_ready

-- Two threads of bob hold the packet verified; one commits it, and the other is refused.
abbrev held : Running
held = record { node = bob; drawn = []; verified = packet ∷ packet ∷ []; opened = []; noted = [] }

abbrev committed : Running
committed = record {
  node = (open_commit toy bob packet).1;
  drawn = [];
  verified = packet ∷ [];
  opened = packet ∷ [];
  noted = [];
}

abbrev refused : Running
refused = record {
  node = (open_commit toy committed.node packet).1;
  drawn = [];
  verified = [];
  opened = packet ∷ [];
  noted = [];
}

verified : open_verify toy bob packet (9 ∷ []) 10200 ≡ ok (1 ∷ 2 ∷ [])
unfolding seal_realtime seal_packet new derive_packet_crypto packet_okm build_internal_aad_v3
    try_u32 be tag spread mix get check open_verify
verified = refl

commits : (open_commit toy bob packet).0 ≡ ok tt
unfolding new open_commit get check seal_realtime seal_packet derive_packet_crypto packet_okm
    build_internal_aad_v3 try_u32 be tag spread mix
commits = refl

repeats : (open_commit toy committed.node packet).0 ≡ err repetido
unfolding new open_commit get insert check record_seq seal_realtime seal_packet derive_packet_crypto
    packet_okm build_internal_aad_v3 try_u32 be tag spread mix
repeats = refl

bob_threads : Reach toy (fresh bob) refused
bob_threads =
    next
      (next
        (next (next here (verify packet (9 ∷ []) (1 ∷ 2 ∷ []) 10200 verified refl))
          (verify packet (9 ∷ []) (1 ∷ 2 ∷ []) 10200 verified refl))
        (commit packet [] (packet ∷ []) refl commits refl))
      (refuse packet [] [] repetido refl repeats refl)

Reach-Distinct_opened_example : Distinct (numbers 7 3 refused.opened)
unfolding new
Reach-Distinct_opened_example = Reach-Distinct_opened toy bob 7 3 (omega arith) refl bob_threads

-- Two threads of alice draw a number each before the first of them notes its packet.
abbrev drawn_twice : Running
drawn_twice = record {
  node = note_packet toy (draw_sequence (draw_sequence alice)) packet;
  drawn = 1 ∷ 0 ∷ [];
  verified = [];
  opened = [];
  noted = packet ∷ [];
}

alice_threads : Reach toy (fresh alice) drawn_twice
unfolding new draw_sequence
alice_threads = next (next (next here (draw refl)) (draw refl)) (note packet refl)

Reach-Distinct_drawn_example : Distinct (1 ∷ 0 ∷ [])
unfolding new
Reach-Distinct_drawn_example = Reach-Distinct_drawn toy alice refl alice_threads (omega arith)

-- A node that noted two packets, the last of them first.
abbrev noted_by : ChronoMeshNode → Packet → Packet → Running
noted_by n p q = record {
  node = note_packet toy (note_packet toy n q) p;
  drawn = [];
  verified = [];
  opened = [];
  noted = p ∷ q ∷ [];
}

notes : (n : ChronoMeshNode) (p q : Packet) → Reach toy (fresh n) (noted_by n p q)
notes n p q = next (next here (note q refl)) (note p refl)

Reach-verify_integrity_checkpoint_example :
    (verify_integrity_checkpoint
        (noted_by alice packet other).node
        (current_integrity_sha256 (noted_by bob other packet).node)
      ≡ ok tt)
    × (verify_integrity_checkpoint
          (noted_by bob other packet).node
          (current_integrity_sha256 (noted_by alice packet other).node)
        ≡ ok tt)
unfolding new
Reach-verify_integrity_checkpoint_example =
    Reach-verify_integrity_checkpoint toy alice bob refl (notes alice packet other)
      (notes bob other packet) (Quot.sound (swap refl refl))

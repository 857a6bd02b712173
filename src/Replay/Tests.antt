-- ===== src/Replay/Tests.antt =====
-- The two channels of a seed, and a packet between them.
use cripto_endevs_comunity.Base.{ℕ, ◌≡◌, none, refl, List, [], ◌∷◌, replicate, arith}
use cripto_endevs_comunity.Error.{Result, ok, err, panic}
use cripto_endevs_comunity.Bytes.{be, try_u32, checked_add, xor_bytes}
use cripto_endevs_comunity.Crypto.Toy.{toy, toy-IsLawful, tag, spread, mix}
use cripto_endevs_comunity.Packet.{Packet, build_internal_aad_v2, build_internal_aad_v2_with_epoch}
use cripto_endevs_comunity.Window.History.{Distinct}
use cripto_endevs_comunity.Replay.{
  ReplayWindowChannel, compute_nonce, seal, seal_packet, sealed, open_packet,
  ensure_sequence_is_new, mark_seen,
}
use cripto_endevs_comunity.Replay.Channel.{SendsTo, open_packet-seal}
use cripto_endevs_comunity.Replay.Nonces.{
  compute_nonce-injective, seal_all, DistinctNonces, seal_all-DistinctNonces,
}
use cripto_endevs_comunity.Replay.Delivery.{deliver_all, deliver_all-Distinct}

abbrev seed : List ℕ
seed = replicate 32 5

-- A channel with constant keys and masks.
abbrev channel : ℕ → ReplayWindowChannel
channel tx_seq = record {
  tx_key = replicate 32 1;
  rx_key = replicate 32 1;
  tx_nonce_mask = replicate 12 3;
  rx_nonce_mask = replicate 12 3;
  tx_seq = tx_seq;
  highest_seen = none;
  seen_bitmap = 0;
  window = 8;
}

channel-SendsTo : SendsTo (channel 4) (channel 0)
channel-SendsTo = record { key = refl; mask = refl }

abbrev or_packet : Result Packet → Packet
or_packet (ok p) = p
or_packet (err e) = record {
  version = 2;
  flags = 0;
  node_id = 0;
  epoch = 0;
  sequence = 1;
  timestamp_ms = 0;
  nonce = [];
  ciphertext = [];
}
or_packet panic = record {
  version = 2;
  flags = 0;
  node_id = 0;
  epoch = 0;
  sequence = 1;
  timestamp_ms = 0;
  nonce = [];
  ciphertext = [];
}

abbrev packet : Packet
packet = or_packet (seal toy (channel 4) (1 ∷ 2 ∷ []) (9 ∷ [])).0

sent : (seal toy (channel 4) (1 ∷ 2 ∷ []) (9 ∷ [])).0 ≡ ok packet
unfolding seal seal_packet sealed checked_add build_internal_aad_v2 build_internal_aad_v2_with_epoch
    try_u32 compute_nonce xor_bytes be tag spread mix
sent = refl

is_new : ensure_sequence_is_new (channel 0) packet.sequence ≡ ok tt
unfolding ensure_sequence_is_new
is_new = refl

open_packet-seal_example :
    open_packet toy (channel 0) packet (9 ∷ [])
    ≡ (ok (1 ∷ 2 ∷ []), mark_seen (channel 0) packet.sequence)
open_packet-seal_example =
    open_packet-seal toy (channel 4) (channel 0) (1 ∷ 2 ∷ []) (9 ∷ []) toy-IsLawful channel-SendsTo
      sent is_new

deliver_all-Distinct_example :
    Distinct
      (deliver_all toy
        (record { channel = channel 0; opened = [] })
        ((packet, 9 ∷ []) ∷ (packet, 9 ∷ []) ∷ [])).opened
deliver_all-Distinct_example =
    deliver_all-Distinct toy (channel 0) ((packet, 9 ∷ []) ∷ (packet, 9 ∷ []) ∷ []) (omega arith)
      refl

compute_nonce-injective_example : ◌≡◌ {A = ℕ} 5 5
compute_nonce-injective_example =
    compute_nonce-injective (replicate 12 3) 5 5 refl (omega arith) (omega arith) refl

seal_all-DistinctNonces_example :
    DistinctNonces (seal_all toy (channel 4) ((1 ∷ [], []) ∷ (2 ∷ [], 3 ∷ []) ∷ []))
seal_all-DistinctNonces_example =
    seal_all-DistinctNonces toy (channel 4) ((1 ∷ [], []) ∷ (2 ∷ [], 3 ∷ []) ∷ []) refl

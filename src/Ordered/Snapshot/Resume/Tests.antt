-- ===== src/Ordered/Snapshot/Resume/Tests.antt =====
-- Snapshots in the middle of a conversation.
use cripto_endevs_comunity.Base.{
  ℕ, ◌+◌, ◌^◌, zero, suc, ◌≡◌, ◌<◌, refl, true, none, List, [], ◌∷◌, replicate, arith, subst,
}
use cripto_endevs_comunity.Error.{Result, ok, err, panic, autenticacion, ok-injective}
use cripto_endevs_comunity.Bytes.{
  be, try_u32, checked_add, slice, slice_from, index, read_be, from_be,
}
use cripto_endevs_comunity.Role.{initiator}
use cripto_endevs_comunity.Crypto.Toy.{toy, toy-IsLawful, tag, spread, mix}
use cripto_endevs_comunity.Packet.{Packet, build_internal_aad_v2_with_epoch}
use cripto_endevs_comunity.Ordered.{
  CryptoNugget, new_with_context, with_keys, seal_packet, sealed, cifrar_bytes_with_aad,
  descifrar_bytes_with_aad,
}
use cripto_endevs_comunity.Ordered.Tests.{seed, alice, bob, or_packet}
use cripto_endevs_comunity.Ordered.Sync.{InSync, new-InSync}
use cripto_endevs_comunity.Ordered.Snapshot.{
  export_state, import_state, seal_state, encode_state_v2, snapshot_aad, mark_resumed, decode_state,
  decode_hashes, from_persisted_state,
}
use cripto_endevs_comunity.Ordered.Snapshot.RoundTrip.{IsNugget}
use cripto_endevs_comunity.Ordered.Snapshot.Epochs.{OnlyUnder}
use cripto_endevs_comunity.Ordered.Snapshot.Resume.{
  descifrar-mark_resumed, descifrar-export_state, descifrar-export_state_twice,
}

abbrev alice_at : ℕ → CryptoNugget
alice_at epoch = record alice { epoch = epoch }

alice-IsNugget : IsNugget alice
unfolding new_with_context with_keys spread
alice-IsNugget = record {
  tx_key = refl;
  rx_key = refl;
  tx_seq = omega arith;
  rx_seq = omega arith;
  epoch = omega arith;
  tx_hash = refl;
  rx_hash = refl;
  context = omega arith;
}

abbrev wrap : List ℕ
wrap = replicate 32 9

abbrev drawn : List ℕ
drawn = replicate 12 8

abbrev or_empty : Result (List ℕ) → List ℕ
or_empty (ok bytes) = bytes
or_empty (err e) = []
or_empty panic = []

abbrev snapshot : ℕ → List ℕ
snapshot epoch = or_empty (export_state toy (alice_at epoch) wrap drawn).0

export_0 : export_state toy alice wrap drawn ≡ (ok (snapshot 0), alice_at 1)
unfolding export_state seal_state encode_state_v2 snapshot_aad checked_add try_u32 be tag spread mix
    new_with_context with_keys
export_0 = refl

export_1 : export_state toy (alice_at 1) wrap drawn ≡ (ok (snapshot 1), alice_at 2)
unfolding export_state seal_state encode_state_v2 snapshot_aad checked_add try_u32 be tag spread mix
    new_with_context with_keys
export_1 = refl

import_0 :
    import_state toy (snapshot 0) wrap [] ≡ ok (record (alice_at 1) { requires_resume_ack = true })
unfolding export_state seal_state encode_state_v2 snapshot_aad checked_add try_u32 be tag spread mix
    new_with_context with_keys import_state decode_state decode_hashes from_persisted_state slice
    slice_from index read_be from_be
import_0 = refl

-- What a channel seals with the plaintext 1 and the associated data 4.
abbrev packet_of : CryptoNugget → Packet
packet_of n = or_packet (cifrar_bytes_with_aad toy n (1 ∷ []) (4 ∷ []) drawn).0

abbrev left_by : CryptoNugget → CryptoNugget
left_by n = (cifrar_bytes_with_aad toy n (1 ∷ []) (4 ∷ []) drawn).1

seal_0 : cifrar_bytes_with_aad toy bob (1 ∷ []) (4 ∷ []) drawn ≡ (ok (packet_of bob), left_by bob)
unfolding cifrar_bytes_with_aad seal_packet sealed with_keys new_with_context
    build_internal_aad_v2_with_epoch try_u32 checked_add be tag spread mix
seal_0 = refl

seal_1 :
    cifrar_bytes_with_aad toy
      (mark_resumed (record (alice_at 1) { requires_resume_ack = true }))
      (1 ∷ [])
      (4 ∷ [])
      drawn
    ≡ (ok (packet_of (alice_at 1)), left_by (alice_at 1))
unfolding mark_resumed cifrar_bytes_with_aad seal_packet sealed with_keys new_with_context
    build_internal_aad_v2_with_epoch try_u32 checked_add be tag spread mix
seal_1 = refl

seal_2 :
    cifrar_bytes_with_aad toy (alice_at 2) (1 ∷ []) (4 ∷ []) drawn
    ≡ (ok (packet_of (alice_at 2)), left_by (alice_at 2))
unfolding cifrar_bytes_with_aad seal_packet sealed with_keys new_with_context
    build_internal_aad_v2_with_epoch try_u32 checked_add be tag spread mix
seal_2 = refl

refuses :
    (key : List ℕ) (p : Packet) {made given : List ℕ}
    → toy.decrypt key p.nonce p.ciphertext made ≡ none
    → Result.ok made ≡ ok given
    → toy.decrypt key p.nonce p.ciphertext given ≡ none
refuses key p fails h =
    subst (λ (data_of : List ℕ). toy.decrypt key p.nonce p.ciphertext data_of ≡ none)
      (ok-injective h) fails

only_0 : OnlyUnder toy alice.rx_key (packet_of bob) (4 ∷ []) 0
unfolding OnlyUnder cifrar_bytes_with_aad seal_packet sealed with_keys new_with_context
    build_internal_aad_v2_with_epoch try_u32 checked_add be tag spread mix
only_0 zero internal other near made = absurd (omega arith)
only_0 (suc zero) internal other near made = refuses alice.rx_key (packet_of bob) refl made
only_0 (suc (suc zero)) internal other near made = refuses alice.rx_key (packet_of bob) refl made
only_0 (suc (suc (suc e))) internal other near made = absurd (omega arith)

only_1 : OnlyUnder toy bob.rx_key (packet_of (alice_at 1)) (4 ∷ []) 1
unfolding OnlyUnder cifrar_bytes_with_aad seal_packet sealed with_keys new_with_context
    build_internal_aad_v2_with_epoch try_u32 checked_add be tag spread mix
only_1 zero internal other near made = refuses bob.rx_key (packet_of (alice_at 1)) refl made
only_1 (suc zero) internal other near made = absurd (omega arith)
only_1 (suc (suc zero)) internal other near made =
    refuses bob.rx_key (packet_of (alice_at 1)) refl made
only_1 (suc (suc (suc zero))) internal other near made =
    refuses bob.rx_key (packet_of (alice_at 1)) refl made
only_1 (suc (suc (suc (suc e)))) internal other near made = absurd (omega arith)

only_2 : OnlyUnder toy bob.rx_key (packet_of (alice_at 2)) (4 ∷ []) 2
unfolding OnlyUnder cifrar_bytes_with_aad seal_packet sealed with_keys new_with_context
    build_internal_aad_v2_with_epoch try_u32 checked_add be tag spread mix
only_2 zero internal other near made = refuses bob.rx_key (packet_of (alice_at 2)) refl made
only_2 (suc zero) internal other near made = refuses bob.rx_key (packet_of (alice_at 2)) refl made
only_2 (suc (suc zero)) internal other near made = absurd (omega arith)
only_2 (suc (suc (suc zero))) internal other near made =
    refuses bob.rx_key (packet_of (alice_at 2)) refl made
only_2 (suc (suc (suc (suc zero)))) internal other near made =
    refuses bob.rx_key (packet_of (alice_at 2)) refl made
only_2 (suc (suc (suc (suc (suc e))))) internal other near made = absurd (omega arith)

descifrar-mark_resumed_example :
    (b : CryptoNugget) × (descifrar_bytes_with_aad toy bob (packet_of (alice_at 1)) (4 ∷ [])
      ≡ (ok (1 ∷ []), b))
    × InSync (left_by (alice_at 1)) b
    × InSync b (left_by (alice_at 1))
unfolding new_with_context with_keys
descifrar-mark_resumed_example =
    descifrar-mark_resumed toy alice (alice_at 1)
      (record (alice_at 1) { requires_resume_ack = true }) (left_by (alice_at 1)) bob wrap drawn
      (snapshot 0) (1 ∷ []) (4 ∷ []) drawn (packet_of (alice_at 1)) toy-IsLawful alice-IsNugget refl
      (new-InSync toy seed [] initiator).0 (new-InSync toy seed [] initiator).1 export_0 import_0
      seal_1 only_1

alice_epoch : alice.epoch + 2 < 2 ^ 64
unfolding new_with_context with_keys
alice_epoch = omega arith

descifrar-export_state_example :
    descifrar_bytes_with_aad toy (alice_at 1) (packet_of bob) (4 ∷ [])
    ≡ (err autenticacion, alice_at 1)
unfolding new_with_context with_keys
descifrar-export_state_example =
    descifrar-export_state toy alice (alice_at 1) bob (left_by bob) wrap drawn (snapshot 0) (1 ∷ [])
      (4 ∷ []) drawn (packet_of bob) toy-IsLawful (new-InSync toy seed [] initiator).1 alice_epoch
      export_0 seal_0 only_0

descifrar-export_state_twice_example :
    descifrar_bytes_with_aad toy bob (packet_of (alice_at 2)) (4 ∷ []) ≡ (err autenticacion, bob)
unfolding new_with_context with_keys
descifrar-export_state_twice_example =
    descifrar-export_state_twice toy alice (alice_at 1) (alice_at 2) (left_by (alice_at 2)) bob wrap
      drawn drawn (snapshot 0) (snapshot 1) (1 ∷ []) (4 ∷ []) drawn (packet_of (alice_at 2))
      toy-IsLawful (new-InSync toy seed [] initiator).0 export_0 export_1 seal_2 only_2

-- ===== src/Demo/Saves.antt =====
-- The saves of the example: a checkpoint of the running node, sealed in a slot of the container.
use cripto_endevs_comunity.Base.{
  ℕ, ◌+◌, ◌^◌, ◌<◌, ◌≡◌, refl, true, List, [], ◌∷◌, ◌++◌, length, arith, ltb, max, lt→ltb,
}
use cripto_endevs_comunity.Error.{ok}
use cripto_endevs_comunity.Bytes.{be, try_u32, checked_add}
use cripto_endevs_comunity.Bytes.BigEndian.{length-be}
use cripto_endevs_comunity.Bytes.Slices.{length-flat}
use cripto_endevs_comunity.Crypto.{Crypto, IsLawful}
use cripto_endevs_comunity.Chrono.{ChronoMeshNode}
use cripto_endevs_comunity.Chrono.Checkpoint.{
  export_checkpoint, raw_state, peers_bytes, checkpoint_aad, mesh_state_magic,
}
use cripto_endevs_comunity.DualSlot.{
  DualSlotContainer, slot_aad, slot_bytes, seal_slot, commit_parts, next_generation, commit_state,
  replace_older,
}
use cripto_endevs_comunity.Demo.Stages.{Encrypts, IsRunning}

module _ (c : Crypto) (lawful : IsLawful c) (encrypts : Encrypts c) (wrap_key : List ℕ) where
  module _ (n : ChronoMeshNode) (hash nonce : List ℕ) (k : ℕ) (running : IsRunning n hash k)
      (size : length nonce ≡ 12) where
    length-raw_state : length (raw_state n 0) ≡ 56
    unfolding raw_state peers_bytes
    length-raw_state =
        let none_left : peers_bytes n.peers ≡ [] = rw running.peers refl in
        rw none_left (
          omega (
            arith,
            length-flat
                (be 4 n.node_id
                  ∷ be 8 n.epoch
                  ∷ be 8 n.tx_seq
                  ∷ n.multiset_integrity_hash
                  ∷ be 4 0
                  ∷ [])
                [],
            length-be 4 n.node_id,
            length-be 8 n.epoch,
            length-be 8 n.tx_seq,
            length-be 4 0,
            running.integrity,
          ))

    -- The node exports a checkpoint of 89 bytes.
    pub export_checkpoint_total :
        (cp : List ℕ) × (export_checkpoint c n wrap_key nonce ≡ ok cp) × (length cp ≡ 89)
    unfolding export_checkpoint try_u32 Encrypts
    export_checkpoint_total =
        let raw_size = length-raw_state in
        let count : length n.peers ≡ 0 = rw running.peers refl in
        let (ct, done) = encrypts wrap_key nonce (raw_state n 0) (checkpoint_aad n) (omega arith) in
        let ct_size =
          lawful.length-encrypt wrap_key nonce (raw_state n 0) (checkpoint_aad n) ct done in
        (
          mesh_state_magic ++ ((1 ∷ []) ++ (nonce ++ ct)),
          rw (count, done, export_checkpoint, try_u32) refl,
          omega (arith, length-flat (mesh_state_magic ∷ (1 ∷ []) ∷ nonce ∷ []) ct),
        )

  module _ (d : DualSlotContainer) (payload nonce : List ℕ) (size : length nonce ≡ 12)
      (a : d.generation_a < 100) (b : d.generation_b < 100) (small : length payload < 1000) where
    seal_slot_total :
        (g : ℕ)
        → (sealed : List ℕ) × (seal_slot c g payload wrap_key nonce ≡ ok sealed)
          × (length sealed ≡ 36 + length payload)
    unfolding seal_slot slot_bytes Encrypts
    seal_slot_total g =
        let (ct, done) = encrypts wrap_key nonce payload (slot_aad g) (omega arith) in
        let ct_size = lawful.length-encrypt wrap_key nonce payload (slot_aad g) ct done in
        (
          be 8 g ++ (nonce ++ ct),
          rw (done, seal_slot, slot_bytes) refl,
          omega (arith, length-flat (be 8 g ∷ nonce ∷ []) ct, length-be 8 g),
        )

    -- The container commits it in its older slot.
    pub commit_state_total :
        let g = max d.generation_a d.generation_b + 1 in
        (sealed : List ℕ) × (commit_state c d payload wrap_key nonce
          ≡ (ok g, replace_older d g sealed))
        × (length sealed ≡ 36 + length payload)
    unfolding commit_state commit_parts next_generation checked_add
    commit_state_total =
        let g = max d.generation_a d.generation_b + 1 in
        let (sealed, made, long) = seal_slot_total g in
        let fits : ltb g (2 ^ 64) ≡ true = lt→ltb _ _ (omega arith) in
        (
          sealed,
          rw (fits, made, commit_state, commit_parts, next_generation, checked_add) refl,
          long,
        )

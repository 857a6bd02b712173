-- ===== src/Chrono/Checkpoint/RoundTrip.antt =====
-- A checkpoint that was exported is restored.
use mathlib.Core.List.{map}
use cripto_endevs_comunity.Base.{
  ℕ, ◌+◌, ◌*◌, ◌^◌, ◌≤◌, ◌<◌, ◌≡◌, refl, max, true, some, List, [], ◌∷◌, ◌++◌, length, arith, ltb,
  le→ltb, lt→ltb, ◌==◌, ==_refl, inl, inr, Option-cases, append_assoc, length-append, All,
}
use cripto_endevs_comunity.Error.{ok}
use cripto_endevs_comunity.Bytes.{be, slice, index, read_be, try_u32, checked_add, saturating_add}
use cripto_endevs_comunity.Bytes.BigEndian.{length-be}
use cripto_endevs_comunity.Bytes.Slices.{flat, slice_at, slice_from_at, read_be_at, length-flat}
use cripto_endevs_comunity.Crypto.{Crypto, IsLawful}
use cripto_endevs_comunity.Chrono.{ChronoMeshNode}
use cripto_endevs_comunity.Chrono.Peers.{PeerMap}
use cripto_endevs_comunity.Chrono.Peers.Order.{IsSorted}
use cripto_endevs_comunity.Chrono.Checkpoint.PeerBytes.{
  IsPeer, kept, length-peers_bytes, Behind, read_peers-peers_bytes,
}
use cripto_endevs_comunity.Chrono.Checkpoint.{
  mesh_state_magic, mesh_state_version, decode_checkpoint, export_checkpoint, restore_checkpoint,
  peers_bytes, read_peers, raw_state, checkpoint_aad, Restored, decode_raw,
}

-- The ranges of the Rust types of what a checkpoint holds of a node.
pub record IsNode (n : ChronoMeshNode) : Type 0 where
  pub node_id : n.node_id < 2 ^ 32
  pub epoch : n.epoch < 2 ^ 64
  pub tx_seq : n.tx_seq < 2 ^ 64
  pub hash : length n.multiset_integrity_hash ≡ 32
  pub count : length n.peers < 2 ^ 32
  pub peers : All IsPeer n.peers
  pub sorted : IsSorted n.peers

abbrev pub restored : ChronoMeshNode → Restored
restored n = record {
  epoch = n.epoch;
  tx_seq = n.tx_seq;
  multiset_hash = n.multiset_integrity_hash;
  peers = map kept n.peers;
}

nothing-Behind : (m : PeerMap) → Behind [] m
nothing-Behind [] = tt
nothing-Behind (e ∷ m) = (tt, nothing-Behind m)

module _ (n : ChronoMeshNode) (valid : IsNode n) where
  abbrev count : ℕ
  count = length n.peers

  abbrev fixed : List ℕ
  fixed =
      flat (be 4 n.node_id ∷ be 8 n.epoch ∷ be 8 n.tx_seq ∷ n.multiset_integrity_hash ∷ [])
        (be 4 count)

  raw_apart : raw_state n count ≡ fixed ++ peers_bytes n.peers
  unfolding raw_state
  raw_apart = simp append_assoc

  length-fixed : length fixed ≡ 56
  length-fixed = omega (
    arith,
    length-flat (be 4 n.node_id ∷ be 8 n.epoch ∷ be 8 n.tx_seq ∷ n.multiset_integrity_hash ∷ [])
        (be 4 count),
    length-be 4 n.node_id,
    length-be 8 n.epoch,
    length-be 8 n.tx_seq,
    length-be 4 count,
    valid.hash,
  )

  length-raw_state : length (raw_state n count) ≡ 56 + count * 36
  length-raw_state = rw raw_apart (
      omega (
        arith,
        length-append fixed (peers_bytes n.peers),
        length-fixed,
        length-peers_bytes n.peers,
      ))

  peers-raw_state : read_peers count 56 (raw_state n count) [] ≡ ok (map kept n.peers)
  peers-raw_state =
      rw (raw_apart, ← length-fixed)
        (read_peers-peers_bytes n.peers [] fixed valid.peers valid.sorted (nothing-Behind n.peers))

  abbrev raw : List ℕ
  raw = raw_state n count

  fields-raw_state :
      (read_be 4 0 raw ≡ ok n.node_id)
      × (read_be 8 4 raw ≡ ok n.epoch)
      × (read_be 8 12 raw ≡ ok n.tx_seq)
      × (slice 20 52 raw ≡ ok n.multiset_integrity_hash)
      × (read_be 4 52 raw ≡ ok count)
  unfolding raw_state
  fields-raw_state =
      let tail : List ℕ = be 4 count ++ peers_bytes n.peers in
      let l1 = length-be 4 n.node_id in
      let l2 = length-be 8 n.epoch in
      let l3 = length-be 8 n.tx_seq in
      let l4 : length n.multiset_integrity_hash ≡ 32 = valid.hash in
      (
        read_be_at [] 4 0 n.node_id
            (be 8 n.epoch ++ (be 8 n.tx_seq ++ (n.multiset_integrity_hash ++ tail))) refl
            valid.node_id,
        read_be_at (be 4 n.node_id ∷ []) 8 4 n.epoch
            (be 8 n.tx_seq ++ (n.multiset_integrity_hash ++ tail)) (omega arith) valid.epoch,
        read_be_at (be 4 n.node_id ∷ be 8 n.epoch ∷ []) 8 12 n.tx_seq
            (n.multiset_integrity_hash ++ tail) (omega arith) valid.tx_seq,
        slice_at (be 4 n.node_id ∷ be 8 n.epoch ∷ be 8 n.tx_seq ∷ []) 20 52
            n.multiset_integrity_hash tail (omega arith) (omega arith),
        read_be_at (be 4 n.node_id ∷ be 8 n.epoch ∷ be 8 n.tx_seq ∷ n.multiset_integrity_hash ∷ [])
            4 52 count (peers_bytes n.peers) (omega arith) valid.count,
      )

  pub decode_raw-raw_state :
      (b : ChronoMeshNode) → b.node_id ≡ n.node_id → decode_raw b raw ≡ ok (restored n)
  unfolding decode_raw checked_add
  decode_raw-raw_state b same =
      let (f1, f2, f3, f4, f5) = fields-raw_state in
      let size = length-raw_state in
      let small : count < 2 ^ 32 = valid.count in
      let whole : (length raw == 56 + count * 36) ≡ true = rw size (==_refl (56 + count * 36)) in
      let node : (n.node_id == b.node_id) ≡ true = rw same (==_refl n.node_id) in
      rw
        (
          le→ltb (length raw) 56 (omega arith),
          f1,
          node,
          f2,
          f3,
          f4,
          f5,
          lt→ltb (count * 36) (2 ^ 64) (omega arith),
          lt→ltb (56 + count * 36) (2 ^ 64) (omega arith),
          whole,
          peers-raw_state,
        )
        refl

-- The node that a restored checkpoint of `a` leaves of `b`.
pub resumed : ChronoMeshNode → ChronoMeshNode → ChronoMeshNode
resumed a b = record b {
  epoch = max b.epoch (saturating_add a.epoch 1);
  tx_seq = a.tx_seq;
  peers = map kept a.peers;
  multiset_integrity_hash = a.multiset_integrity_hash;
}

module _ (c : Crypto) (lawful : IsLawful c) (a b : ChronoMeshNode) (wrap_key nonce : List ℕ)
    (size : length nonce ≡ 12) (valid : IsNode a)
    (context : a.context_domain_hash ≡ b.context_domain_hash) (same : b.node_id ≡ a.node_id) where
  abbrev message : List ℕ → List ℕ
  message ciphertext = mesh_state_magic ++ ((mesh_state_version ∷ []) ++ (nonce ++ ciphertext))

  decode_checkpoint-message :
      (ciphertext : List ℕ)
      → c.encrypt wrap_key nonce (raw a valid) (checkpoint_aad a) ≡ some ciphertext
      → decode_checkpoint c b (message ciphertext) wrap_key ≡ ok (restored a)
  unfolding decode_checkpoint index
  decode_checkpoint-message ciphertext sealed =
      let aad : checkpoint_aad b ≡ checkpoint_aad a = unfold checkpoint_aad in rw context refl in
      let long : 33 ≤ length (message ciphertext) = omega (
        arith,
        length-flat (mesh_state_magic ∷ (mesh_state_version ∷ []) ∷ nonce ∷ []) ciphertext,
        lawful.length-encrypt _ _ _ _ _ sealed,
      ) in
      rw
        (
          le→ltb (length (message ciphertext)) 33 long,
          slice_at [] 0 4 mesh_state_magic ((mesh_state_version ∷ []) ++ (nonce ++ ciphertext)) refl
              refl,
          slice_at (mesh_state_magic ∷ (mesh_state_version ∷ []) ∷ []) 5 17 nonce ciphertext refl
              (omega arith),
          slice_from_at (mesh_state_magic ∷ (mesh_state_version ∷ []) ∷ nonce ∷ []) 17 ciphertext
              (omega arith),
          aad,
          lawful.decrypt-encrypt _ _ _ _ _ sealed,
        )
        (decode_raw-raw_state a valid b same)

  export_checkpoint-message :
      {bytes : List ℕ}
      → export_checkpoint c a wrap_key nonce ≡ ok bytes
      → (ciphertext : List ℕ) × (c.encrypt wrap_key nonce (raw a valid) (checkpoint_aad a)
          ≡ some ciphertext)
        × (bytes ≡ message ciphertext)
  unfolding export_checkpoint try_u32
  export_checkpoint-message h =
      let small : ltb (length a.peers) (2 ^ 32) ≡ true = lt→ltb _ _ valid.count in
      elim (Option-cases (c.encrypt wrap_key nonce (raw a valid) (checkpoint_aad a))) [
        | inl failed ↦ absurd (ground arith)
        | inr (ciphertext, sealed) ↦ (ciphertext, sealed, ground arith)
      ]

  restore_checkpoint-message :
      {bytes : List ℕ}
      → export_checkpoint c a wrap_key nonce ≡ ok bytes
      → restore_checkpoint c b bytes wrap_key ≡ (ok tt, resumed a b)
  unfolding restore_checkpoint resumed
  restore_checkpoint-message h =
      let (ciphertext, sealed, e) = export_checkpoint-message h in
      rw (e, restore_checkpoint, decode_checkpoint-message ciphertext sealed) refl

-- A checkpoint that a node exported, its fields in the ranges of their Rust types and its peers fewer
-- than 2^32, a node of the same number and context restores with the same key: it has the counter
-- and the integrity hash as they were exported, the larger of its own epoch and the one after the
-- exported, and the peers with their windows as they were exported, their counts of received packets
-- at 0. Of a peer whose highest number was 2^64 - 1 the highest number is lost.
pub restore_checkpoint-export_checkpoint :
    (c : Crypto) (a b : ChronoMeshNode) (wrap_key nonce bytes : List ℕ)
    → IsLawful c
    → IsNode a
    → length nonce ≡ 12
    → a.context_domain_hash ≡ b.context_domain_hash
    → b.node_id ≡ a.node_id
    → export_checkpoint c a wrap_key nonce ≡ ok bytes
    → restore_checkpoint c b bytes wrap_key ≡ (
      ok tt,
      record b {
        epoch = max b.epoch (saturating_add a.epoch 1);
        tx_seq = a.tx_seq;
        peers = map kept a.peers;
        multiset_integrity_hash = a.multiset_integrity_hash;
      },
    )
unfolding resumed
restore_checkpoint-export_checkpoint c a b wrap_key nonce bytes lawful valid size context same h =
    restore_checkpoint-message c lawful a b wrap_key nonce size valid context same h

-- ===== src/Ffi/Restart.antt =====
-- The state of a handle, exported through the C interface and imported by another after a restart.
use mathlib.Core.List.{map}
use cripto_endevs_comunity.Base.{ℕ, ◌≡◌, refl, ap, max, some, List, length, inl, inr, arith}
use cripto_endevs_comunity.Error.{Result, ok, err, panic, ◌>>=◌, pos, Result-cases}
use cripto_endevs_comunity.Bytes.{saturating_add}
use cripto_endevs_comunity.Crypto.{Crypto, IsLawful}
use cripto_endevs_comunity.Chrono.Checkpoint.{export_checkpoint}
use cripto_endevs_comunity.Chrono.Checkpoint.PeerBytes.{kept}
use cripto_endevs_comunity.Chrono.Checkpoint.RoundTrip.{
  IsNode, restore_checkpoint-export_checkpoint,
}
use cripto_endevs_comunity.DualSlot.{
  DualSlotContainer, commit_state, recover_latest_valid, to_bytes, from_bytes,
}
use cripto_endevs_comunity.DualSlot.Recovery.{commit_state-recover_latest_valid}
use cripto_endevs_comunity.DualSlot.Whole.{
  HasGenerations, from_bytes-to_bytes, commit_state-HasGenerations,
}
use cripto_endevs_comunity.Ffi.{
  CnMeshHandle, bytes, Output, nothing, code_of, respond, slice_from_raw, import_slices, adopt,
  cn_mesh_export_dualslot_state, cn_mesh_import_dualslot_state,
}
use cripto_endevs_comunity.Ffi.RoundTrip.{respond-out_buf}

-- What an export that wrote its output did.
pub record Exported (c : Crypto) (h : CnMeshHandle) (nonce slot_nonce raw : List ℕ)
    (d : DualSlotContainer) : Type 0 where
  pub checkpoint : List ℕ
  pub generation : ℕ
  pub exports : export_checkpoint c h.node h.wrap_key nonce ≡ ok checkpoint
  pub commits : commit_state c h.dual_slot checkpoint h.wrap_key slot_nonce ≡ (ok generation, d)
  pub writes : to_bytes d ≡ ok raw

committed-ok :
    (r : Result ℕ) (d : DualSlotContainer) {raw : List ℕ}
    → (r >>= λ g. to_bytes d) ≡ ok raw
    → (g : ℕ) × (r ≡ ok g) × (to_bytes d ≡ ok raw)
committed-ok (ok g) d h = (g, refl, h)
committed-ok (err e) d h = absurd (ground arith)
committed-ok panic d h = absurd (ground arith)

module _ (c : Crypto) (h : CnMeshHandle) (nonce slot_nonce : List ℕ) (out : Output) where
  cn_mesh_export_dualslot_state-Exported :
      {raw : List ℕ}
      → (cn_mesh_export_dualslot_state c (some h) nonce slot_nonce out).written.out_buf ≡ some raw
      → (d : DualSlotContainer) × Exported c h nonce slot_nonce raw d
        × ((cn_mesh_export_dualslot_state c (some h) nonce slot_nonce out).handle
            ≡ some (record h { dual_slot = d }))
  unfolding cn_mesh_export_dualslot_state respond
  cn_mesh_export_dualslot_state-Exported {raw} e =
      elim (Result-cases (export_checkpoint c h.node h.wrap_key nonce)) [
        | inl (checkpoint, exports) ↦
            let commit = commit_state c h.dual_slot checkpoint h.wrap_key slot_nonce in
            let made =
              respond-out_buf (commit.0 >>= λ g. to_bytes commit.1) out
                (record h { dual_slot = commit.1 })
                (rw (cn_mesh_export_dualslot_state, exports) at e) in
            let (g, ends, writes) = committed-ok commit.0 commit.1 made in
            (
              commit.1,
              record {
                checkpoint = checkpoint;
                generation = g;
                exports = exports;
                commits = ap (λ r. (r, commit.1)) ends;
                writes = writes;
              },
              rw (cn_mesh_export_dualslot_state, exports, ends, writes, respond) refl,
            )
        | inr other ↦ absurd (ground arith)
      ]

-- The state that one handle wrote, the fields of its node and its container in the ranges of their Rust
-- types and its peers fewer than 2^32, a handle of the same node, context and wrap key imports with the code 0: its node
-- has the counter and the integrity hash as they were exported, the larger of its own epoch and the
-- one after the exported, and the peers with their windows as they were exported, their counts of
-- received packets at 0; its container is the one that was exported. Of a peer whose highest number
-- was 2^64 - 1 the highest number is lost.
pub cn_mesh_import_dualslot_state-cn_mesh_export_dualslot_state :
    (c : Crypto) (h g : CnMeshHandle) (nonce slot_nonce raw : List ℕ) (out : Output)
    → IsLawful c
    → IsNode h.node
    → HasGenerations h.dual_slot
    → length nonce ≡ 12
    → length slot_nonce ≡ 12
    → h.wrap_key ≡ g.wrap_key
    → h.node.context_domain_hash ≡ g.node.context_domain_hash
    → g.node.node_id ≡ h.node.node_id
    → (cn_mesh_export_dualslot_state c (some h) nonce slot_nonce out).written.out_buf ≡ some raw
    → (d : DualSlotContainer) × ((cn_mesh_export_dualslot_state c
          (some h)
          nonce
          slot_nonce
          out).handle
        ≡ some (record h { dual_slot = d }))
      × (cn_mesh_import_dualslot_state c (some g) (bytes raw) ≡ record {
        code = pos 0;
        handle = some (record g {
          node = record g.node {
            epoch = max g.node.epoch (saturating_add h.node.epoch 1);
            tx_seq = h.node.tx_seq;
            peers = map kept h.node.peers;
            multiset_integrity_hash = h.node.multiset_integrity_hash;
          };
          dual_slot = d;
        });
        written = nothing;
      })
unfolding cn_mesh_import_dualslot_state import_slices adopt code_of slice_from_raw
cn_mesh_import_dualslot_state-cn_mesh_export_dualslot_state c h g nonce slot_nonce raw out lawful
      valid generations size slot_size wrap context same e =
    let (d, x, after) = cn_mesh_export_dualslot_state-Exported c h nonce slot_nonce out e in
    let read : from_bytes raw ≡ ok d =
      from_bytes-to_bytes d
        (commit_state-HasGenerations c h.dual_slot d x.checkpoint h.wrap_key slot_nonce x.generation
          generations x.commits)
        x.writes in
    let (recovers, _, _) =
      commit_state-recover_latest_valid c h.dual_slot d x.checkpoint h.wrap_key slot_nonce
        x.generation lawful slot_size x.commits in
    let opens : recover_latest_valid c d g.wrap_key ≡ ok (x.generation, x.checkpoint) =
      rw (← wrap) recovers in
    let restores =
      restore_checkpoint-export_checkpoint c h.node g.node g.wrap_key nonce x.checkpoint lawful
        valid size context same (rw (← wrap) x.exports) in
    (
      d,
      after,
      rw
          (
            cn_mesh_import_dualslot_state, import_slices, slice_from_raw, read, opens, restores,
            adopt, code_of,
          )
          refl,
    )

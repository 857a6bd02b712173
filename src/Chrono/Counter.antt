-- ===== src/Chrono/Counter.antt =====
-- When a node seals a sequence number twice.
use cripto_endevs_comunity.Base.{
  ℕ, ◌+◌, ◌%◌, ◌-◌, ◌^◌, ◌<◌, ◌≡◌, refl, sym, ap, ◌∙◌, max, List, length, arith, inl, inr,
}
use cripto_endevs_comunity.Error.{ok, err, Result-cases, cifrado}
use cripto_endevs_comunity.Bytes.{saturating_add}
use cripto_endevs_comunity.Crypto.{Crypto, IsLawful}
use cripto_endevs_comunity.Packet.{Packet}
use cripto_endevs_comunity.Chrono.{
  ChronoMeshNode, seal_packet, seal_realtime, draw_sequence, note_packet,
}
use cripto_endevs_comunity.Chrono.Mesh.{seal_realtime-SealedAs}
use cripto_endevs_comunity.Chrono.Checkpoint.{export_checkpoint, restore_checkpoint}
use cripto_endevs_comunity.Chrono.Checkpoint.RoundTrip.{
  IsNode, restore_checkpoint-export_checkpoint,
}

module _ (c : Crypto) (n : ChronoMeshNode) (plaintext aad : List ℕ) (now_ms : ℕ) where
  seal_realtime_last :
      n.tx_seq ≡ 2 ^ 64 - 1
      → seal_realtime c n plaintext aad now_ms ≡ (err cifrado, record n { tx_seq = 0 })
  unfolding seal_realtime draw_sequence
  seal_realtime_last last =
      let wrapped : (n.tx_seq + 1) % 2 ^ 64 ≡ 0 = rw last refl in
      let refused : seal_packet c n n.tx_seq plaintext aad now_ms ≡ err cifrado =
        unfold seal_packet in rw (last, seal_packet) refl in
      rw (seal_realtime, refused, draw_sequence, wrapped) refl

  -- Whatever sealing does, it keeps the number, the epoch and the context.
  seal_realtime_keeps :
      let n' : ChronoMeshNode = (seal_realtime c n plaintext aad now_ms).1 in
      (n'.epoch ≡ n.epoch)
      × (n'.node_id ≡ n.node_id)
      × (n'.context_domain_hash ≡ n.context_domain_hash)
  unfolding seal_realtime draw_sequence note_packet
  seal_realtime_keeps = elim (Result-cases (seal_packet c n n.tx_seq plaintext aad now_ms)) [
    | inl (p, e) ↦ rw (seal_realtime, e) (refl, refl, refl)
    | inr (inl (x, e)) ↦ rw (seal_realtime, e) (refl, refl, refl)
    | inr (inr e) ↦ rw (seal_realtime, e) (refl, refl, refl)
  ]

-- A node whose counter is u64::MAX refuses to seal, but what it seals next has the number 0 and its
-- epoch again.
pub seal_realtime_wraps :
    (c : Crypto) (n : ChronoMeshNode) (plaintext aad : List ℕ) (now_ms : ℕ)
    (plaintext' aad' : List ℕ) (now_ms' : ℕ) (p : Packet)
    → n.tx_seq ≡ 2 ^ 64 - 1
    → (seal_realtime c (seal_realtime c n plaintext aad now_ms).1 plaintext' aad' now_ms').0 ≡ ok p
    → ((seal_realtime c n plaintext aad now_ms).0 ≡ err cifrado)
      × (p.sequence ≡ 0)
      × (p.epoch ≡ n.epoch)
seal_realtime_wraps c n plaintext aad now_ms plaintext' aad' now_ms' p last h =
    let first = seal_realtime_last c n plaintext aad now_ms last in
    let s =
      seal_realtime-SealedAs c (record n { tx_seq = 0 }) plaintext' aad' now_ms' (rw first at h) in
    (ap (λ r. r.0) first, s.sequence, s.epoch)

-- A node that boots with an epoch above that of its checkpoint, seals, and then restores the
-- checkpoint: if the checkpoint was saved at the counter at which the node sealed, what it seals
-- next has the number and the epoch of the packet before.
pub seal_realtime-restore_checkpoint :
    (c : Crypto) (saved n : ChronoMeshNode) (wrap_key nonce bytes : List ℕ)
    (plaintext aad plaintext' aad' : List ℕ) (now_ms now_ms' : ℕ) (p p' : Packet)
    → IsLawful c
    → IsNode saved
    → length nonce ≡ 12
    → saved.context_domain_hash ≡ n.context_domain_hash
    → n.node_id ≡ saved.node_id
    → export_checkpoint c saved wrap_key nonce ≡ ok bytes
    → saved.epoch < n.epoch
    → n.epoch < 2 ^ 64
    → saved.tx_seq ≡ n.tx_seq
    → (seal_realtime c n plaintext aad now_ms).0 ≡ ok p
    → (seal_realtime c
        (restore_checkpoint c (seal_realtime c n plaintext aad now_ms).1 bytes wrap_key).1
        plaintext'
        aad'
        now_ms').0
      ≡ ok p'
    → (p'.sequence ≡ p.sequence) × (p'.epoch ≡ p.epoch) × (p'.node_id ≡ p.node_id)
unfolding saturating_add
seal_realtime-restore_checkpoint c saved n wrap_key nonce bytes plaintext aad plaintext' aad' now_ms
      now_ms' p p' lawful valid size context same exported later small counter h h' =
    let after : ChronoMeshNode = (seal_realtime c n plaintext aad now_ms).1 in
    let (epoch, node, domain) = seal_realtime_keeps c n plaintext aad now_ms in
    let restored =
      restore_checkpoint-export_checkpoint c saved after wrap_key nonce bytes lawful valid size
        (context ∙ sym domain) (node ∙ same) exported in
    let s = seal_realtime-SealedAs c n plaintext aad now_ms h in
    let s' = seal_realtime-SealedAs c _ plaintext' aad' now_ms' (rw restored at h') in
    let larger : max after.epoch (saturating_add saved.epoch 1) ≡ n.epoch =
      rw epoch (ground arith) in
    (
      s'.sequence ∙ counter ∙ sym s.sequence,
      s'.epoch ∙ larger ∙ sym s.epoch,
      s'.node_id ∙ node ∙ sym s.node_id,
    )

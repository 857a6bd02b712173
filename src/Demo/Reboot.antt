-- ===== src/Demo/Reboot.antt =====
-- The power cut in the save of the example: what is read back of the container, and the node from it.
use cripto_endevs_comunity.Base.{
  ℕ, ◌+◌, ◌-◌, ◌^◌, ◌<◌, ◌≤◌, ◌≡◌, refl, sym, ◌∙◌, true, false, List, [], length, arith, ltb, take,
  inl, inr, max, lt→ltb, le→ltb,
}
use cripto_endevs_comunity.Error.{ok, Result-cases, paquete_corrupto}
use cripto_endevs_comunity.Bytes.{be, try_u32}
use cripto_endevs_comunity.Crypto.{Crypto, IsLawful}
use cripto_endevs_comunity.Seed.{MasterSeed, derive_wrap_key}
use cripto_endevs_comunity.Chrono.{ChronoMeshNode}
use cripto_endevs_comunity.Chrono
use cripto_endevs_comunity.Chrono.Checkpoint.{export_checkpoint, restore_checkpoint}
use cripto_endevs_comunity.Chrono.Checkpoint.RoundTrip.{
  IsNode, restore_checkpoint-export_checkpoint,
}
use cripto_endevs_comunity.DualSlot.{
  DualSlotContainer, commit_state, replace_older, to_bytes, from_bytes, open_slot,
  recover_latest_valid,
}
use cripto_endevs_comunity.DualSlot
use cripto_endevs_comunity.DualSlot.Recovery.{tear, recover_latest_valid-tear}
use cripto_endevs_comunity.DualSlot.Storage.{written, from_bytes-take}
use cripto_endevs_comunity.DualSlot.Whole.{to_bytes-ok}
use cripto_endevs_comunity.Demo.{node_back, context, save, reboot, Drawn, truncate_by}
use cripto_endevs_comunity.Demo.Stages.{Encrypts, IsRunning}
use cripto_endevs_comunity.Demo.Saves.{export_checkpoint_total, commit_state_total}

-- The container after the first save and after the second.
abbrev pub one : List ℕ → DualSlotContainer
one s₁ = record { generation_a = 1; slot_a = s₁; generation_b = 0; slot_b = [] }

abbrev pub two : (s₁ s₂ : List ℕ) → DualSlotContainer
two s₁ s₂ = record { generation_a = 1; slot_a = s₁; generation_b = 2; slot_b = s₂ }

running-IsNode :
    (n : ChronoMeshNode) (hash : List ℕ) (k : ℕ) → k < 5 → IsRunning n hash k → IsNode n
running-IsNode n hash k few running = record {
  node_id = rw running.node_id (omega arith);
  epoch = rw running.epoch (omega arith);
  tx_seq = rw running.tx_seq (omega arith);
  hash = running.integrity;
  count = rw running.peers (omega arith);
  peers = rw running.peers tt;
  sorted = rw running.peers tt;
}

module _ (s₁ s₂ : List ℕ) (long₁ : length s₁ < 1000) (long₂ : length s₂ < 1000)
    (tail : 10 ≤ length s₂) where
  to_bytes_total : (file : List ℕ) × (to_bytes (two s₁ s₂) ≡ ok file)
  unfolding to_bytes try_u32
  to_bytes_total =
      let fits₁ : ltb (length s₁) (2 ^ 32) ≡ true = lt→ltb _ _ (omega arith) in
      let fits₂ : ltb (length s₂) (2 ^ 32) ≡ true = lt→ltb _ _ (omega arith) in
      elim (Result-cases (to_bytes (two s₁ s₂))) [
        | inl made ↦ made
        | inr other ↦ absurd (ground arith)
      ]

  -- The file of the container without its last ten bytes lacks slot B.
  from_bytes_truncated :
      (file cut : List ℕ) × (to_bytes (two s₁ s₂) ≡ ok file)
      × (truncate_by 10 file ≡ ok cut)
      × (from_bytes cut ≡ ok (tear (two s₁ s₂) []))
  unfolding written tear
  from_bytes_truncated =
      let (file, made) = to_bytes_total in
      let (a, b, size) = to_bytes-ok (two s₁ s₂) made in
      let k : ℕ = length file - 10 in
      let read =
        from_bytes-take (two s₁ s₂) k file
          (record {
            generation_a = omega arith;
            generation_b = omega arith;
            slot_a = a;
            slot_b = b;
          })
          made (omega arith) in
      let enough : ltb (length file) 10 ≡ false = le→ltb _ _ (omega arith) in
      let header : ltb k (28 + length s₁) ≡ false = le→ltb _ _ (omega arith) in
      let cut : ltb k (length file) ≡ true = lt→ltb _ _ (omega arith) in
      (file, take k file, made, rw enough refl, read ∙ rw (written, header, cut) refl)

module _ (c : Crypto) (lawful : IsLawful c) (encrypts : Encrypts c) (seed : MasterSeed)
    (drawn : Drawn) (cp1 : length drawn.cp1 ≡ 12) (slot1 : length drawn.slot1 ≡ 12)
    (cp2 : length drawn.cp2 ≡ 12) (slot2 : length drawn.slot2 ≡ 12) where
  abbrev pub wrap_key : List ℕ
  wrap_key = derive_wrap_key c seed context

  abbrev pub hash : List ℕ
  hash = (node_back c seed).context_domain_hash

  pub node_back-IsRunning : IsRunning (node_back c seed) hash 0
  unfolding node_back Chrono.new be
  node_back-IsRunning = record {
    node_id = refl;
    epoch = refl;
    tx_seq = refl;
    peers = refl;
    context = refl;
    integrity = refl;
  }

  -- The saves, and what they leave.
  pub save_total :
      (n : ChronoMeshNode) (k : ℕ) (d : DualSlotContainer) (nonce slot_nonce : List ℕ)
      → IsRunning n hash k
      → length nonce ≡ 12
      → length slot_nonce ≡ 12
      → d.generation_a < 100
      → d.generation_b < 100
      → let g = max d.generation_a d.generation_b + 1 in
        (cp sealed : List ℕ) × (export_checkpoint c n wrap_key nonce ≡ ok cp)
        × (commit_state c d cp wrap_key slot_nonce ≡ (ok g, replace_older d g sealed))
        × (length sealed ≡ 125)
        × (save c n d wrap_key nonce slot_nonce ≡ ok (g, replace_older d g sealed))
  unfolding save
  save_total n k d nonce slot_nonce running size slot_size a b =
      let (cp, exports, cp_size) =
        export_checkpoint_total c lawful encrypts wrap_key n hash nonce k running size in
      let (sealed, commits, long) =
        commit_state_total c lawful encrypts wrap_key d cp slot_nonce slot_size a b (omega arith) in
      (cp, sealed, exports, commits, omega arith, rw (exports, commits, save) refl)

  -- The container of both saves, cut short, gives back the first, and the node is restored from it.
  pub reboot_total :
      (n : ChronoMeshNode) (k : ℕ) (cp cp' s₁ s₂ : List ℕ)
      → IsRunning n hash k
      → k < 5
      → export_checkpoint c n wrap_key drawn.cp1 ≡ ok cp
      → commit_state c DualSlot.new cp wrap_key drawn.slot1 ≡ (ok 1, one s₁)
      → commit_state c (one s₁) cp' wrap_key drawn.slot2 ≡ (ok 2, two s₁ s₂)
      → length s₁ ≡ 125
      → length s₂ ≡ 125
      → (rebooted : ChronoMeshNode) × (reboot c seed (two s₁ s₂) wrap_key 1 ≡ ok rebooted)
  unfolding reboot open_slot
  reboot_total n k cp cp' s₁ s₂ running few exports first second size₁ size₂ =
      let (file, cut, whole, shorter, read) =
        from_bytes_truncated s₁ s₂ (omega arith) (omega arith) (omega arith) in
      let recovers =
        recover_latest_valid-tear c DualSlot.new (one s₁) (two s₁ s₂) cp cp' wrap_key drawn.slot1
          drawn.slot2 [] 1 2 paquete_corrupto lawful slot1 first second refl in
      let restores =
        restore_checkpoint-export_checkpoint c n (node_back c seed) wrap_key drawn.cp1 cp lawful
          (running-IsNode n hash k few running) cp1 running.context
          (node_back-IsRunning.node_id ∙ sym running.node_id) exports in
      (
        (restore_checkpoint c (node_back c seed) cp wrap_key).1,
        rw (whole, reboot) (rw shorter (rw read (rw recovers (rw restores refl)))),
      )

-- ===== src/Demo/Runs.antt =====
-- The whole example.
use cripto_endevs_comunity.Base.{ℕ, ◌+◌, ◌^◌, ◌<◌, ◌≡◌, refl, List, length, arith, max, codes}
use cripto_endevs_comunity.Error.{Result, ok, ◌>>=◌}
use cripto_endevs_comunity.Bytes.{IsBytes}
use cripto_endevs_comunity.Crypto.{Crypto, IsLawful}
use cripto_endevs_comunity.Packet.{Packet}
use cripto_endevs_comunity.Seed.{MasterSeed, generate, derive_wrap_key}
use cripto_endevs_comunity.Chrono.{ChronoMeshNode}
use cripto_endevs_comunity.Chrono.Checkpoint.{export_checkpoint}
use cripto_endevs_comunity.DualSlot.{
  DualSlotContainer, commit_state, replace_older, to_bytes, from_bytes, open_slot,
  recover_latest_valid,
}
use cripto_endevs_comunity.DualSlot
use cripto_endevs_comunity.Demo.{node_back, context, save, reboot, Drawn, power_cut_in_save, main}
use cripto_endevs_comunity.Demo.Stages.{Encrypts, IsRunning, emit_total}
use cripto_endevs_comunity.Wal.Log.{IsStorable}
use cripto_endevs_comunity.Demo.{now_ms, emit}
use cripto_endevs_comunity.Demo.Reboot.{one, two, node_back-IsRunning, save_total, reboot_total}
use cripto_endevs_comunity.Demo.Journal.{power_cut_in_journal_total}

-- The stage returned three packets that can be stored.
abbrev Completes : Result (Packet × Packet × Packet × ChronoMeshNode) → Type 0
Completes r =
    (p1 p2 p3 : Packet) × (rebooted : ChronoMeshNode) × (r ≡ ok (p1, p2, p3, rebooted))
    × IsStorable p1
    × IsStorable p2
    × IsStorable p3

module _ (c : Crypto) (lawful : IsLawful c) (encrypts : Encrypts c) (seed : MasterSeed)
    (drawn : Drawn) (cp1 : length drawn.cp1 ≡ 12) (slot1 : length drawn.slot1 ≡ 12)
    (cp2 : length drawn.cp2 ≡ 12) (slot2 : length drawn.slot2 ≡ 12) where
  abbrev wrap_key : List ℕ
  wrap_key = derive_wrap_key c seed context

  abbrev hash : List ℕ
  hash = (node_back c seed).context_domain_hash

  -- One stage, and what the rest makes of the state that it leaves.
  emit_step :
      (n : ChronoMeshNode) (plaintext aad : List ℕ) (k now : ℕ)
      (next : Packet × ChronoMeshNode → Result (Packet × Packet × Packet × ChronoMeshNode))
      → IsRunning n hash k
      → k < 5
      → length plaintext < 100
      → length aad < 100
      → IsBytes plaintext
      → now < 2 ^ 64
      → ((p : Packet) (n' : ChronoMeshNode)
          → IsStorable p
          → IsRunning n' hash (k + 1)
          → Completes (next (p, n')))
      → Completes (emit c n plaintext aad now >>= next)
  emit_step n plaintext aad k now next running few small small_aad plain time rest =
      let (p, n', e, stored, on) =
        emit_total c lawful encrypts n hash plaintext aad k now running few small small_aad plain
          time in
      rw e (rest p n' stored on)

  save_step :
      (n : ChronoMeshNode) (k : ℕ) (d : DualSlotContainer) (nonce slot_nonce : List ℕ)
      (next : ℕ × DualSlotContainer → Result (Packet × Packet × Packet × ChronoMeshNode))
      → IsRunning n hash k
      → length nonce ≡ 12
      → length slot_nonce ≡ 12
      → d.generation_a < 100
      → d.generation_b < 100
      → (let g = max d.generation_a d.generation_b + 1 in
          (cp sealed : List ℕ)
          → export_checkpoint c n wrap_key nonce ≡ ok cp
          → commit_state c d cp wrap_key slot_nonce ≡ (ok g, replace_older d g sealed)
          → length sealed ≡ 125
          → Completes (next (g, replace_older d g sealed)))
      → Completes (save c n d wrap_key nonce slot_nonce >>= next)
  save_step n k d nonce slot_nonce next running size slot_size a b rest =
      let (cp, sealed, exports, commits, long, saves) =
        save_total c lawful encrypts seed drawn cp1 slot1 cp2 slot2 n k d nonce slot_nonce running
          size slot_size a b in
      rw saves (rest cp sealed exports commits long)

  reboot_step :
      (n : ChronoMeshNode) (k : ℕ) (cp cp' s₁ s₂ : List ℕ) (p1 p2 p3 : Packet)
      → IsRunning n hash k
      → k < 5
      → export_checkpoint c n wrap_key drawn.cp1 ≡ ok cp
      → commit_state c DualSlot.new cp wrap_key drawn.slot1 ≡ (ok 1, one s₁)
      → commit_state c (one s₁) cp' wrap_key drawn.slot2 ≡ (ok 2, two s₁ s₂)
      → length s₁ ≡ 125
      → length s₂ ≡ 125
      → IsStorable p1
      → IsStorable p2
      → IsStorable p3
      → Completes (reboot c seed (two s₁ s₂) wrap_key 1 >>= λ node. ok (p1, p2, p3, node))
  reboot_step n k cp cp' s₁ s₂ p1 p2 p3 running few exports first second size₁ size₂ st1 st2 st3 =
      let (node, reboots) =
        reboot_total c lawful encrypts seed drawn cp1 slot1 cp2 slot2 n k cp cp' s₁ s₂ running few
          exports first second size₁ size₂ in
      (p1, p2, p3, node, rw reboots refl, st1, st2, st3)

  power_cut_in_save_total : Completes (power_cut_in_save c seed drawn)
  unfolding power_cut_in_save replace_older
  power_cut_in_save_total =
      emit_step (node_back c seed) (codes "Estado memoria IA #1") (codes "aad:1") 0 now_ms _
        (node_back-IsRunning c lawful encrypts seed drawn cp1 slot1 cp2 slot2) (omega arith)
        (omega arith) (omega arith) (ground arith) (omega arith)
        (λ p1 n1 s1 r1.
          emit_step n1 (codes "Estado memoria IA #2") (codes "aad:2") 1 (now_ms + 5) _ r1
            (omega arith) (omega arith) (omega arith) (ground arith) (omega arith)
            (λ p2 n2 s2 r2.
              save_step n2 2 DualSlot.new drawn.cp1 drawn.slot1 _ r2 cp1 slot1 (omega arith)
                (omega arith)
                (λ cp sealed exports commits size.
                  emit_step n2 (codes "Mismo contexto IA") (codes "aad") 2 now_ms _ r2 (omega arith)
                    (omega arith) (omega arith) (ground arith) (omega arith)
                    (λ pa n3 sa r3.
                      emit_step n3 (codes "Mismo contexto IA") (codes "aad") 3 now_ms _ r3
                        (omega arith) (omega arith) (omega arith) (ground arith) (omega arith)
                        (λ pb n4 sb r4.
                          emit_step n4 (codes "Estado memoria IA #3") (codes "aad:3") 4
                            (now_ms + 10) _ r4 (omega arith) (omega arith) (omega arith)
                            (ground arith) (omega arith)
                            (λ p3 n5 s3 r5.
                              save_step n5 5 (one sealed) drawn.cp2 drawn.slot2 _ r5 cp2 slot2
                                (omega arith) (omega arith)
                                (λ cp' sealed' exports' commits' size'.
                                  reboot_step n2 2 cp cp' sealed sealed' p1 p2 p3 r2 (omega arith)
                                    exports commits commits' size size' s1 s2 s3)))))))

-- The example runs to its end, whatever seed and nonces are drawn, where encryption succeeds on messages
-- of less than 2^32 bytes: no `unwrap` fails and every assertion holds. The container without its last
-- ten bytes gives back the first generation, and the journal with half of its third frame two packets
-- and a torn tail.
pub main_total :
    (c : Crypto) (drawn_seed : List ℕ) (drawn : Drawn)
    → IsLawful c
    → Encrypts c
    → length drawn.cp1 ≡ 12
    → length drawn.slot1 ≡ 12
    → length drawn.cp2 ≡ 12
    → length drawn.slot2 ≡ 12
    → (plaintexts : List (List ℕ)) × (main c drawn_seed drawn ≡ ok plaintexts)
unfolding main
main_total c drawn_seed drawn lawful encrypts cp1 slot1 cp2 slot2 =
    let (p1, p2, p3, node, saved, s1, s2, s3) =
      power_cut_in_save_total c lawful encrypts (generate drawn_seed) drawn cp1 slot1 cp2 slot2 in
    let (plaintexts, ends) = power_cut_in_journal_total c lawful node p1 p2 p3 s1 s2 s3 in
    (plaintexts, rw saved ends)

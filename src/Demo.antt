-- ===== src/Demo.antt =====
-- examples/demo.rs, the example program: a power cut in the save of a container, and one at the end of
-- a journal. What it prints is left out. The seed and the nonces that are drawn are arguments; `unwrap`
-- of an error and an assertion that fails are panics.
mod Stages
mod Saves
mod Journal
mod Reboot
mod Runs
mod Tests
use cripto_endevs_comunity.Base.{
  ℕ, zero, suc, bit_xor, ◌*◌, ◌%◌, ◌+◌, ◌-◌, ◌/◌, Bool, true, false, List, [], ◌∷◌, ◌++◌, length,
  take, ltb, ◌==◌, codes, if◌then◌else◌,
}
use cripto_endevs_comunity.Error.{Result, ok, err, panic, ◌>>=◌, ◌>>◌}
use cripto_endevs_comunity.Crypto.{Crypto}
use cripto_endevs_comunity.Packet.{Packet}
use cripto_endevs_comunity.Seed.{MasterSeed, generate, derive_wrap_key}
use cripto_endevs_comunity.Chrono.{ChronoMeshNode, seal_realtime}
use cripto_endevs_comunity.Chrono
use cripto_endevs_comunity.Chrono.Checkpoint.{export_checkpoint, restore_checkpoint}
use cripto_endevs_comunity.Wal.{
  ChronoWalJournal, encode_append_frame, recover_from_bytes, decrypt_recovered_wal,
}
use cripto_endevs_comunity.Wal
use cripto_endevs_comunity.DualSlot.{
  DualSlotContainer, commit_state, recover_latest_valid, to_bytes, from_bytes,
}
use cripto_endevs_comunity.DualSlot

-- `unwrap`, `assert!` and `assert_eq!`
abbrev pub unwrap {ℓ} : {A : Type ℓ} → Result A → Result A
unwrap (ok a) = ok a
unwrap (err e) = panic
unwrap panic = panic

abbrev pub assert : Bool → Result (Unit {0})
assert true = ok tt
assert false = panic

-- `bytes.truncate(bytes.len() - n)`
abbrev pub truncate_by : ℕ → List ℕ → Result (List ℕ)
truncate_by n bytes = if ltb (length bytes) n then panic else ok (take (length bytes - n) bytes)

abbrev pub context : List ℕ
context = codes "ia-core:distributed-memory:v5"

abbrev pub now_ms : ℕ
now_ms = 1760443800000

-- The node, as it starts and as it starts again.
pub node_back : Crypto → MasterSeed → ChronoMeshNode
node_back c seed = Chrono.new c seed.bytes context 10 1 30000

-- A packet is sealed.
pub emit :
    Crypto
    → ChronoMeshNode
    → (plaintext aad : List ℕ) → (now : ℕ) → Result (Packet × ChronoMeshNode)
emit c n plaintext aad now =
    let (packet, n') = seal_realtime c n plaintext aad now in (do p ← unwrap packet; ok (p, n'))

-- A checkpoint is committed: the generation and the container.
pub save :
    Crypto
    → ChronoMeshNode
    → DualSlotContainer
    → (wrap_key nonce slot_nonce : List ℕ) → Result (ℕ × DualSlotContainer)
save c n d wrap_key nonce slot_nonce = do
  checkpoint ← unwrap (export_checkpoint c n wrap_key nonce)
  let (generation, d') = commit_state c d checkpoint wrap_key slot_nonce
  g ← unwrap generation
  ok (g, d')

-- The container is read back from a file that lost its last ten bytes, and the node from it.
pub reboot :
    Crypto
    → MasterSeed
    → DualSlotContainer
    → (wrap_key : List ℕ) → (gen1 : ℕ) → Result ChronoMeshNode
unfolding node_back
reboot c seed dual_slot wrap_key gen1 = do
  whole ← unwrap (to_bytes dual_slot)
  disk_bytes ← truncate_by 10 whole
  recovered_container ← unwrap (from_bytes disk_bytes)
  (rec_gen, rec_cp) ← unwrap (recover_latest_valid c recovered_container wrap_key)
  assert (rec_gen == gen1)
  let (restored, rebooted_node) = restore_checkpoint c (node_back c seed) rec_cp wrap_key
  unwrap restored
  ok rebooted_node

-- `(a ^ b).count_ones()` of two bytes, and its sum over two ciphertexts, as far as both go.
count_ones : (bits n : ℕ) → ℕ
count_ones zero n = 0
count_ones (suc bits) n = n % 2 + count_ones bits (n / 2)

bits_distintos : (a b : List ℕ) → ℕ
unfolding count_ones
bits_distintos [] bs = 0
bits_distintos (a ∷ as_left) [] = 0
bits_distintos (a ∷ as_left) (b ∷ bs) = count_ones 8 (bit_xor a b) + bits_distintos as_left bs

-- The nonces of the two checkpoints and their slots.
pub record Drawn : Type 0 where
  pub cp1 : List ℕ
  pub slot1 : List ℕ
  pub cp2 : List ℕ
  pub slot2 : List ℕ

-- The first part of `main`: the three packets of the journal.
pub power_cut_in_save :
    Crypto → MasterSeed → Drawn → Result (Packet × Packet × Packet × ChronoMeshNode)
unfolding emit save reboot bits_distintos
power_cut_in_save c seed drawn = do
  let wrap_key = derive_wrap_key c seed context
  (p1, n1) ← emit c (node_back c seed) (codes "Estado memoria IA #1") (codes "aad:1") now_ms
  (p2, n2) ← emit c n1 (codes "Estado memoria IA #2") (codes "aad:2") (now_ms + 5)
  (gen1, d1) ← save c n2 DualSlot.new wrap_key drawn.cp1 drawn.slot1
  (muestra_a, n3) ← emit c n2 (codes "Mismo contexto IA") (codes "aad") now_ms
  (muestra_b, n4) ← emit c n3 (codes "Mismo contexto IA") (codes "aad") now_ms
  let distintos = bits_distintos muestra_a.ciphertext muestra_b.ciphertext
  let total_bits = length muestra_a.ciphertext * 8
  (p3, n5) ← emit c n4 (codes "Estado memoria IA #3") (codes "aad:3") (now_ms + 10)
  (gen2, d2) ← save c n5 d1 wrap_key drawn.cp2 drawn.slot2
  rebooted_node ← reboot c seed d2 wrap_key gen1
  ok (p1, p2, p3, rebooted_node)

-- `.into_iter().flatten().collect()` of a result: nothing of an error.
unfoldable pub flatten : Result (List (List ℕ)) → Result (List (List ℕ))
flatten (ok plaintexts) = ok plaintexts
flatten (err e) = ok []
flatten panic = panic

-- The second part: two frames and half of a third, and the plaintexts.
pub power_cut_in_journal :
    Crypto → (rebooted_node : ChronoMeshNode) → (p1 p2 p3 : Packet) → Result (List (List ℕ))
unfolding flatten
power_cut_in_journal c rebooted_node p1 p2 p3 = do
  let (r1, wal1) = encode_append_frame c Wal.new p1
  frame1 ← unwrap r1
  let (r2, wal2) = encode_append_frame c wal1 p2
  frame2 ← unwrap r2
  let (r3, wal3) = encode_append_frame c wal2 p3
  frame3 ← unwrap r3
  report ← unwrap (recover_from_bytes c (frame1 ++ (frame2 ++ take (length frame3 / 2) frame3)))
  assert (length report.packets == 2)
  assert report.had_truncated_tail
  flatten (decrypt_recovered_wal c rebooted_node report.packets (codes "aad:1"))

pub main : Crypto → (drawn_seed : List ℕ) → Drawn → Result (List (List ℕ))
unfolding power_cut_in_save power_cut_in_journal
main c drawn_seed drawn = do
  (p1, p2, p3, rebooted_node) ← power_cut_in_save c (generate drawn_seed) drawn
  power_cut_in_journal c rebooted_node p1 p2 p3

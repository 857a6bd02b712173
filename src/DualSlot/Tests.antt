-- ===== src/DualSlot/Tests.antt =====
-- Two commits of concrete payloads, and the file of a container.
use cripto_endevs_comunity.Base.{none}
use cripto_endevs_comunity.DualSlot.File.{
  Disk, cut_at, save_atomic, Saved, load_from_file-save_atomic,
}
use cripto_endevs_comunity.Base.{
  ℕ, ◌≡◌, ◌<◌, refl, List, [], ◌∷◌, ◌++◌, replicate, take, arith, length,
}
use cripto_endevs_comunity.Error.{ok, err, paquete_corrupto}
use cripto_endevs_comunity.Bytes.{be, checked_add, try_u32}
use cripto_endevs_comunity.Crypto.Toy.{toy, toy-IsLawful, tag, spread, mix}
use cripto_endevs_comunity.DualSlot.{
  DualSlotContainer, new, commit_state, commit_parts, next_generation, seal_slot, slot_bytes,
  replace_older, recover_latest_valid, open_slot, to_bytes, from_bytes,
}
use cripto_endevs_comunity.DualSlot.Recovery.{
  commit_state-recover_latest_valid, recover_latest_valid-tear, tear,
}
use cripto_endevs_comunity.DualSlot.Storage.{IsContainer, written, from_bytes-take}

abbrev wrap_key : List ℕ
wrap_key = replicate 32 6

abbrev nonce : List ℕ
nonce = replicate 12 8

abbrev after_one : DualSlotContainer
after_one = (commit_state toy new (1 ∷ 2 ∷ []) wrap_key nonce).1

abbrev after_two : DualSlotContainer
after_two = (commit_state toy after_one (3 ∷ []) wrap_key nonce).1

commit_one : commit_state toy new (1 ∷ 2 ∷ []) wrap_key nonce ≡ (ok 1, after_one)
unfolding commit_state commit_parts next_generation checked_add seal_slot slot_bytes replace_older
    be tag spread mix
commit_one = refl

commit_two : commit_state toy after_one (3 ∷ []) wrap_key nonce ≡ (ok 2, after_two)
unfolding commit_state commit_parts next_generation checked_add seal_slot slot_bytes replace_older
    be tag spread mix
commit_two = refl

short_slot : open_slot toy (4 ∷ 4 ∷ []) wrap_key ≡ err paquete_corrupto
unfolding open_slot
short_slot = refl

commit_state-recover_latest_valid_example :
    (recover_latest_valid toy after_one wrap_key ≡ ok (1, 1 ∷ 2 ∷ []))
    × (new.generation_a < 1)
    × (new.generation_b < 1)
commit_state-recover_latest_valid_example =
    commit_state-recover_latest_valid toy new after_one (1 ∷ 2 ∷ []) wrap_key nonce 1 toy-IsLawful
      refl commit_one

recover_latest_valid-tear_example :
    recover_latest_valid toy (tear after_two (4 ∷ 4 ∷ [])) wrap_key ≡ ok (1, 1 ∷ 2 ∷ [])
recover_latest_valid-tear_example =
    recover_latest_valid-tear toy new after_one after_two (1 ∷ 2 ∷ []) (3 ∷ []) wrap_key nonce nonce
      (4 ∷ 4 ∷ []) 1 2 paquete_corrupto toy-IsLawful refl commit_one commit_two short_slot

abbrev stored : DualSlotContainer
stored = record { generation_a = 2; slot_a = 1 ∷ 2 ∷ []; generation_b = 3; slot_b = 5 ∷ 6 ∷ 7 ∷ [] }

stored-IsContainer : IsContainer stored
stored-IsContainer = record {
  generation_a = omega arith;
  generation_b = omega arith;
  slot_a = omega arith;
  slot_b = omega arith;
}

abbrev file : List ℕ
file =
    (67 ∷ 78 ∷ 68 ∷ 83 ∷ [])
    ++ (be 8 2 ++ (be 4 2 ++ (1 ∷ 2 ∷ be 8 3 ++ (be 4 3 ++ (5 ∷ 6 ∷ 7 ∷ [])))))

to_bytes-stored : to_bytes stored ≡ ok file
unfolding to_bytes try_u32
to_bytes-stored = refl

from_bytes-take_example : from_bytes (take 31 file) ≡ ok (written stored (length file) 31)
from_bytes-take_example =
    from_bytes-take stored 31 file stored-IsContainer to_bytes-stored (omega arith)

abbrev empty_disk : Disk
empty_disk = record { path = none; tmp_path = none }

load_from_file-save_atomic_example :
    Saved stored empty_disk (save_atomic stored (cut_at 7 []) empty_disk)
load_from_file-save_atomic_example =
    load_from_file-save_atomic stored (cut_at 7 []) empty_disk
      (record { a = omega arith; b = omega arith })

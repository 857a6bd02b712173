-- ===== src/DualSlot/File.antt =====
-- `DualSlotContainer::save_atomic` and `load_from_file`. What the file system does is an argument:
-- where it fails, and after how many bytes. A temporary file that is renamed is whole, because it was
-- synced before, and the rename is atomic; a power cut leaves what a failure at its place leaves.
use cripto_endevs_comunity.Base.{
  ℕ, ◌^◌, ◌≡◌, ◌≢◌, refl, Bool, Bool-cases, if◌then◌else◌, ltb, length, Option, some, none, List,
  take, inl, inr, arith,
}
use cripto_endevs_comunity.Error.{Error, Result, ok, err, panic, io, Result-cases}
use cripto_endevs_comunity.Bytes.{try_u32}
use cripto_endevs_comunity.DualSlot.{DualSlotContainer, to_bytes, from_bytes}
use cripto_endevs_comunity.DualSlot.Whole.{HasGenerations, from_bytes-to_bytes}

-- The file at the path, and the temporary file beside it.
pub record Disk : Type 0 where
  pub path : Option (List ℕ)
  pub tmp_path : Option (List ℕ)

-- The texts are those of the errors. Where the rename fails, the temporary file is removed if that
-- works.
pub data Saving : Type 0 where
  uncreated : (text : List ℕ) → Saving
  cut_at : (count : ℕ) (text : List ℕ) → Saving
  unsynced : (text : List ℕ) → Saving
  unrenamed : (is_removed : Bool) (text : List ℕ) → Saving
  saved : Saving

pub save_bytes : Saving → List ℕ → Disk → Result (Unit {0}) × Disk
save_bytes (uncreated text) bytes disk = (err (io text), disk)
save_bytes (cut_at count text) bytes disk =
    (err (io text), record disk { tmp_path = some (take count bytes) })
save_bytes (unsynced text) bytes disk = (err (io text), record disk { tmp_path = some bytes })
save_bytes (unrenamed is_removed text) bytes disk =
    (err (io text), record disk { tmp_path = if is_removed then none else some bytes })
save_bytes saved bytes disk = (ok tt, record { path = some bytes; tmp_path = none })

pub save_atomic : DualSlotContainer → Saving → Disk → Result (Unit {0}) × Disk
unfolding save_bytes
save_atomic d os disk = elim (to_bytes d) [
  | ok bytes ↦ save_bytes os bytes disk
  | err e ↦ (err e, disk)
  | panic ↦ (panic, disk)
]

-- A missing file is an error with the text that is given.
pub load_from_file : (text : List ℕ) → Disk → Result DualSlotContainer
load_from_file text disk = elim disk.path [ none ↦ err (io text) | some bytes ↦ from_bytes bytes ]

-- How a save ended: well, with the container in the file, or not, with the file as it was.
pub data Saved (d : DualSlotContainer) (before : Disk) (after : Result (Unit {0}) × Disk)
    : Type 0 where
  whole :
      after.0 ≡ ok tt
      → ((text : List ℕ) → load_from_file text after.1 ≡ ok d)
      → Saved d before after
  unchanged : (e : Error) → after.0 ≡ err e → after.1.path ≡ before.path → Saved d before after

save_bytes-Saved :
    (d : DualSlotContainer) (os : Saving) (bytes : List ℕ) (disk : Disk)
    → from_bytes bytes ≡ ok d
    → Saved d disk (save_bytes os bytes disk)
unfolding save_bytes load_from_file
save_bytes-Saved d (uncreated text) bytes disk read = unchanged (io text) refl refl
save_bytes-Saved d (cut_at count text) bytes disk read = unchanged (io text) refl refl
save_bytes-Saved d (unsynced text) bytes disk read = unchanged (io text) refl refl
save_bytes-Saved d (unrenamed is_removed text) bytes disk read = unchanged (io text) refl refl
save_bytes-Saved d saved bytes disk read = whole refl (λ text. read)

to_bytes-ne-panic : (d : DualSlotContainer) → to_bytes d ≢ panic
unfolding to_bytes try_u32
to_bytes-ne-panic d h = elim (Bool-cases (ltb (length d.slot_a) (2 ^ 32))) [
  | inl a ↦ ground arith
  | inr a ↦ ground arith
]

-- Wherever a save fails, if it does, the file is either as it was, and the save returns an error, or
-- it loads as the container that was saved, and the save returns no error.
pub load_from_file-save_atomic :
    (d : DualSlotContainer) (os : Saving) (disk : Disk)
    → HasGenerations d
    → Saved d disk (save_atomic d os disk)
unfolding save_atomic
load_from_file-save_atomic d os disk valid = elim (Result-cases (to_bytes d)) [
  | inl (bytes, e) ↦
      rw (save_atomic, e) (save_bytes-Saved d os bytes disk (from_bytes-to_bytes d valid e))
  | inr (inl (x, e)) ↦ rw (save_atomic, e) (unchanged x refl refl)
  | inr (inr p) ↦ absurd (to_bytes-ne-panic d p)
]

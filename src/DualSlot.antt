-- ===== src/DualSlot.antt =====
-- The superblock `DualSlotContainer` of src/persistence.rs: two sealed slots with a generation each,
-- of which a commit replaces the older one. `usize` has 64 bits. The nonce that `seal_slot` draws from
-- `OsRng` is an argument; DualSlot/File has the file that `save_atomic` writes.
pub mod Recovery
pub mod Storage
pub mod Whole
pub mod File
mod Tests
use cripto_endevs_comunity.Base.{
  ℕ, ◌+◌, ◌-◌, ◌^◌, max, Bool, true, false, not, ◌&&◌, ◌||◌, Option, some, none, List, [], ◌∷◌,
  ◌++◌, length, ltb, leb, ◌==◌, if◌then◌else◌, codes, list_eq,
}
use cripto_endevs_comunity.Error.{
  Error, Result, ok, err, panic, ◌>>=◌, ◌>>◌, reject, require, paquete_corrupto, cifrado,
  autenticacion, aad_demasiado_largo,
}
use cripto_endevs_comunity.Bytes.{be, slice, slice_from, read_be, try_u32, checked_add}
use cripto_endevs_comunity.Crypto.{Crypto}
use cripto_endevs_comunity.Packet.{nonce_len, tag_len}

abbrev pub magic_dual : List ℕ
magic_dual = codes "CNDS"

pub record DualSlotContainer : Type 0 where
  pub generation_a : ℕ
  pub slot_a : List ℕ
  pub generation_b : ℕ
  pub slot_b : List ℕ

abbrev pub new : DualSlotContainer
new = record { generation_a = 0; slot_a = []; generation_b = 0; slot_b = [] }

abbrev pub slot_aad : ℕ → List ℕ
slot_aad generation = magic_dual ++ be 8 generation

-- `seal_slot`, and its last part, behind the encryption.
unfoldable pub slot_bytes : ℕ → List ℕ → Option (List ℕ) → Result (List ℕ)
slot_bytes generation nonce none = err cifrado
slot_bytes generation nonce (some ciphertext) = ok (be 8 generation ++ (nonce ++ ciphertext))

unfoldable pub seal_slot :
    Crypto → (generation : ℕ) → (payload wrap_key nonce : List ℕ) → Result (List ℕ)
seal_slot c generation payload wrap_key nonce =
    slot_bytes generation nonce (c.encrypt wrap_key nonce payload (slot_aad generation))

abbrev pub opened : Option (List ℕ) → Result (List ℕ)
opened none = err autenticacion
opened (some plaintext) = ok plaintext

unfoldable pub open_slot : Crypto → (slot_bytes wrap_key : List ℕ) → Result (ℕ × List ℕ)
open_slot c slot_bytes wrap_key = do
  reject (ltb (length slot_bytes) (8 + nonce_len + tag_len)) paquete_corrupto
  generation ← read_be 8 0 slot_bytes
  nonce ← slice 8 (8 + nonce_len) slot_bytes
  ciphertext ← slice_from (8 + nonce_len) slot_bytes
  plaintext ← opened (c.decrypt wrap_key nonce ciphertext (slot_aad generation))
  ok (generation, plaintext)

-- The generation that a commit writes.
unfoldable pub next_generation : DualSlotContainer → Result ℕ
next_generation d = checked_add (max d.generation_a d.generation_b) 1 cifrado

-- The container with a slot replaced: the one whose generation is not the newer.
unfoldable pub replace_older : DualSlotContainer → ℕ → List ℕ → DualSlotContainer
replace_older d next_gen sealed =
    if leb d.generation_a d.generation_b
    then record d { slot_a = sealed; generation_a = next_gen }
    else record d { slot_b = sealed; generation_b = next_gen }

unfoldable pub commit_parts :
    Crypto → DualSlotContainer → (payload wrap_key nonce : List ℕ) → Result (ℕ × List ℕ)
commit_parts c d payload wrap_key nonce = do
  next_gen ← next_generation d
  sealed ← seal_slot c next_gen payload wrap_key nonce
  ok (next_gen, sealed)

-- `commit_state`: an error leaves the container as it was.
unfoldable pub commit_state :
    Crypto → DualSlotContainer → (payload wrap_key nonce : List ℕ) → Result ℕ × DualSlotContainer
commit_state c d payload wrap_key nonce = elim (commit_parts c d payload wrap_key nonce) [
  | ok (next_gen, sealed) ↦ (ok next_gen, replace_older d next_gen sealed)
  | err e ↦ (err e, d)
  | panic ↦ (panic, d)
]

-- What the loop of `recover_latest_valid` returns from a round, if it does: the slot opens and holds
-- the generation that the container notes for it.
pub accept : ℕ → Result (ℕ × List ℕ) → Option (ℕ × List ℕ)
accept expected_gen (ok (gen_val, plaintext)) =
    if gen_val == expected_gen then some (gen_val, plaintext) else none
accept expected_gen (err e) = none
accept expected_gen panic = none

pub try_slot :
    Crypto → (wrap_key : List ℕ) → (slot : List ℕ) → (generation : ℕ) → Option (ℕ × List ℕ)
try_slot c wrap_key slot expected_gen =
    if not (length slot == 0) && ltb 0 expected_gen
    then accept expected_gen (open_slot c slot wrap_key)
    else none

-- The two rounds of the loop.
unfoldable pub first_of : Option (ℕ × List ℕ) → Option (ℕ × List ℕ) → Result (ℕ × List ℕ)
first_of (some r) second = ok r
first_of none (some r) = ok r
first_of none none = err paquete_corrupto

unfoldable pub recover_latest_valid :
    Crypto → DualSlotContainer → (wrap_key : List ℕ) → Result (ℕ × List ℕ)
recover_latest_valid c d wrap_key =
    let a = try_slot c wrap_key d.slot_a d.generation_a in
    let b = try_slot c wrap_key d.slot_b d.generation_b in
    if leb d.generation_b d.generation_a then first_of a b else first_of b a

unfoldable pub to_bytes : DualSlotContainer → Result (List ℕ)
to_bytes d = do
  len_a ← try_u32 (length d.slot_a) aad_demasiado_largo
  len_b ← try_u32 (length d.slot_b) aad_demasiado_largo
  ok (
      magic_dual
      ++ (be 8 d.generation_a
          ++ (be 4 len_a ++ (d.slot_a ++ (be 8 d.generation_b ++ (be 4 len_b ++ d.slot_b))))))

-- What `from_bytes` does behind slot A: a slot B that does not end in the buffer is dropped.
unfoldable pub from_bytes_b :
    List ℕ → (generation_a end_a : ℕ) → (slot_a : List ℕ) → Result DualSlotContainer
from_bytes_b bytes generation_a end_a slot_a =
    if ltb (length bytes) (end_a + 12)
    then ok (record { generation_a = generation_a; slot_a = slot_a; generation_b = 0; slot_b = [] })
    else (do
      generation_b ← read_be 8 end_a bytes
      len_b ← read_be 4 (end_a + 8) bytes
      end_b ← checked_add (end_a + 12) len_b paquete_corrupto
      slot_b ← if leb end_b (length bytes) then slice (end_a + 12) end_b bytes else ok []
      ok (record {
        generation_a = generation_a;
        slot_a = slot_a;
        generation_b = generation_b;
        slot_b = slot_b;
      }))

unfoldable pub from_bytes : List ℕ → Result DualSlotContainer
from_bytes bytes = do
  reject (ltb (length bytes) 16) paquete_corrupto
  magic ← slice 0 4 bytes
  require (list_eq magic magic_dual) paquete_corrupto
  generation_a ← read_be 8 4 bytes
  len_a ← read_be 4 12 bytes
  end_a ← checked_add 16 len_a paquete_corrupto
  reject (ltb (length bytes) end_a) paquete_corrupto
  slot_a ← slice 16 end_a bytes
  from_bytes_b bytes generation_a end_a slot_a

-- ===== src/DualSlot/Whole.antt =====
-- A file of a container that was written to its end, and a container in use.
use cripto_endevs_comunity.Base.{
  ℕ, ◌+◌, ◌^◌, ◌<◌, ◌≡◌, false, List, [], ◌∷◌, length, arith, ltb, le→ltb, inl, inr, Bool-cases,
  take-all,
}
use cripto_endevs_comunity.Error.{ok}
use cripto_endevs_comunity.Bytes.{be, try_u32}
use cripto_endevs_comunity.Bytes.BigEndian.{length-be}
use cripto_endevs_comunity.Bytes.Slices.{length-flat}
use cripto_endevs_comunity.Crypto.{Crypto}
use cripto_endevs_comunity.DualSlot.{
  DualSlotContainer, commit_state, replace_older, magic_dual, to_bytes, from_bytes,
}
use cripto_endevs_comunity.DualSlot.Recovery.{commit_state-parts}
use cripto_endevs_comunity.DualSlot.Storage.{written, from_bytes-take}

-- The ranges of the generations.
pub record HasGenerations (d : DualSlotContainer) : Type 0 where
  pub a : d.generation_a < 2 ^ 64
  pub b : d.generation_b < 2 ^ 64

-- What `to_bytes` returns says that both slots fit, and how long the file is.
pub to_bytes-ok :
    (d : DualSlotContainer) {file : List ℕ}
    → to_bytes d ≡ ok file
    → (length d.slot_a < 2 ^ 32)
      × (length d.slot_b < 2 ^ 32)
      × (length file ≡ 28 + length d.slot_a + length d.slot_b)
unfolding to_bytes try_u32
to_bytes-ok d {file} h =
    let size =
      length-flat
        (magic_dual
          ∷ be 8 d.generation_a
          ∷ be 4 (length d.slot_a)
          ∷ d.slot_a
          ∷ be 8 d.generation_b
          ∷ be 4 (length d.slot_b)
          ∷ [])
        d.slot_b in
    elim (Bool-cases (ltb (length d.slot_a) (2 ^ 32))) [
      | inl a ↦ elim (Bool-cases (ltb (length d.slot_b) (2 ^ 32))) [
        | inl b ↦ (
          ground arith,
          ground arith,
          ground (
            arith,
            size,
            length-be 8 d.generation_a,
            length-be 4 (length d.slot_a),
            length-be 8 d.generation_b,
            length-be 4 (length d.slot_b),
          ),
        )
        | inr b ↦ absurd (ground arith)
      ]
      | inr a ↦ absurd (ground arith)
    ]

pub from_bytes-to_bytes :
    (d : DualSlotContainer) {file : List ℕ}
    → HasGenerations d
    → to_bytes d ≡ ok file
    → from_bytes file ≡ ok d
unfolding written
from_bytes-to_bytes d {file} valid h =
    let (a, b, size) = to_bytes-ok d h in
    let read =
      from_bytes-take d (length file) file
        (record { generation_a = valid.a; generation_b = valid.b; slot_a = a; slot_b = b }) h
        (omega arith) in
    let header : ltb (length file) (28 + length d.slot_a) ≡ false = le→ltb _ _ (omega arith) in
    let whole : ltb (length file) (length file) ≡ false = le→ltb _ _ (omega arith) in
    rw (take-all file (length file) (omega arith), written, header, whole) at read

-- A commit keeps the generations in range.
pub commit_state-HasGenerations :
    (c : Crypto) (d d' : DualSlotContainer) (payload wrap_key nonce : List ℕ) (g : ℕ)
    → HasGenerations d
    → commit_state c d payload wrap_key nonce ≡ (ok g, d')
    → HasGenerations d'
unfolding replace_older
commit_state-HasGenerations c d d' payload wrap_key nonce g valid h =
    let (next, fits, sealed, made, e) = commit_state-parts c d payload wrap_key nonce h in
    let a : d.generation_a < 2 ^ 64 = valid.a in
    let b : d.generation_b < 2 ^ 64 = valid.b in
    let range : HasGenerations (replace_older d g sealed) = record {
      a = ground arith;
      b = ground arith;
    } in
    rw e range

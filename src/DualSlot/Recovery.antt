-- ===== src/DualSlot/Recovery.antt =====
-- What is recovered after commits, and after a crash in the middle of one.
use cripto_endevs_comunity.Base.{
  ℕ, ◌+◌, ◌^◌, ◌≤◌, ◌<◌, ◌≡◌, refl, sym, max, some, none, List, [], ◌∷◌, ◌++◌, length, ltb, leb,
  if◌then◌else◌, arith, inl, inr, Bool-cases, Option-cases, le→ltb,
}
use cripto_endevs_comunity.Error.{Error, ok, err, Result-cases}
use cripto_endevs_comunity.Bytes.{be, checked_add}
use cripto_endevs_comunity.Bytes.BigEndian.{length-be}
use cripto_endevs_comunity.Bytes.Slices.{slice_at, slice_from_at, read_be_at, length-flat}
use cripto_endevs_comunity.Crypto.{Crypto, IsLawful}
use cripto_endevs_comunity.DualSlot.{
  DualSlotContainer, seal_slot, slot_bytes, slot_aad, open_slot, next_generation, replace_older,
  commit_parts, commit_state, accept, try_slot, first_of, recover_latest_valid,
}

module _ (c : Crypto) (lawful : IsLawful c) (wrap_key nonce : List ℕ)
    (size : length nonce ≡ 12) where
  open_slot_bytes :
      (generation : ℕ) (payload ciphertext : List ℕ)
      → generation < 2 ^ 64
      → c.encrypt wrap_key nonce payload (slot_aad generation) ≡ some ciphertext
      → open_slot c (be 8 generation ++ (nonce ++ ciphertext)) wrap_key ≡ ok (generation, payload)
  unfolding open_slot
  open_slot_bytes generation payload ciphertext g e =
      let whole : List ℕ = be 8 generation ++ (nonce ++ ciphertext) in
      let long : 36 ≤ length whole = omega (
        arith,
        length-flat (be 8 generation ∷ nonce ∷ []) ciphertext,
        length-be 8 generation,
        lawful.length-encrypt _ _ _ _ _ e,
      ) in
      rw
        (
          le→ltb (length whole) 36 long,
          read_be_at [] 8 0 generation (nonce ++ ciphertext) refl g,
          slice_at (be 8 generation ∷ []) 8 20 nonce ciphertext
              (omega (arith, length-be 8 generation)) (omega arith),
          slice_from_at (be 8 generation ∷ nonce ∷ []) 20 ciphertext
              (omega (arith, length-be 8 generation)),
          lawful.decrypt-encrypt _ _ _ _ _ e,
        )
        refl

  -- A slot that was sealed opens, and is not empty.
  open_slot-seal_slot :
      (generation : ℕ) (payload sealed : List ℕ)
      → generation < 2 ^ 64
      → seal_slot c generation payload wrap_key nonce ≡ ok sealed
      → (open_slot c sealed wrap_key ≡ ok (generation, payload)) × (0 < length sealed)
  unfolding seal_slot slot_bytes
  open_slot-seal_slot generation payload sealed g e =
      elim (Option-cases (c.encrypt wrap_key nonce payload (slot_aad generation))) [
        | inl failed ↦ ground arith
        | inr (ciphertext, done) ↦
            let made : be 8 generation ++ (nonce ++ ciphertext) ≡ sealed = ground arith in
            (
              rw (← made) (open_slot_bytes generation payload ciphertext g done),
              rw (← made) (
                  omega (
                    arith,
                    length-flat (be 8 generation ∷ []) (nonce ++ ciphertext),
                    length-be 8 generation,
                  )),
            )
      ]

  try_slot-seal_slot :
      (generation : ℕ) (payload sealed : List ℕ)
      → 0 < generation
      → generation < 2 ^ 64
      → seal_slot c generation payload wrap_key nonce ≡ ok sealed
      → try_slot c wrap_key sealed generation ≡ some (generation, payload)
  unfolding try_slot accept
  try_slot-seal_slot generation payload sealed positive g e =
      let (opens, long) = open_slot-seal_slot generation payload sealed g e in ground arith

-- A slot that does not open is passed over.
try_slot-err :
    (c : Crypto) (wrap_key slot : List ℕ) (generation : ℕ) {e : Error}
    → open_slot c slot wrap_key ≡ err e
    → try_slot c wrap_key slot generation ≡ none
unfolding try_slot accept
try_slot-err c wrap_key slot generation e = ground arith

module _ (c : Crypto) (d : DualSlotContainer) (payload wrap_key nonce : List ℕ) where
  -- What a commit that returns a generation has done.
  pub commit_state-parts :
      {g : ℕ} {d' : DualSlotContainer}
      → commit_state c d payload wrap_key nonce ≡ (ok g, d')
      → (g ≡ max d.generation_a d.generation_b + 1)
        × (g < 2 ^ 64)
        × (sealed : List ℕ) × (seal_slot c g payload wrap_key nonce ≡ ok sealed)
        × (d' ≡ replace_older d g sealed)
  unfolding commit_state commit_parts next_generation checked_add
  commit_state-parts {g = g} h =
      let n : ℕ = max d.generation_a d.generation_b + 1 in
      elim (Bool-cases (ltb n (2 ^ 64))) [
        | inl fits ↦ elim (Result-cases (seal_slot c n payload wrap_key nonce)) [
          | inl (sealed, made) ↦
              let same : n ≡ g = ground arith in
              (sym same, ground arith, sealed, rw (← same) made, ground arith)
          | inr (inl (e, failed)) ↦ ground arith
          | inr (inr failed) ↦ ground arith
        ]
        | inr over ↦ ground arith
      ]

-- The container of which the newest slot was being written when the power went.
unfoldable pub tear : DualSlotContainer → List ℕ → DualSlotContainer
tear d garbage =
    if leb d.generation_b d.generation_a
    then record d { slot_a = garbage }
    else record d { slot_b = garbage }

module _ (c : Crypto) (d : DualSlotContainer) (g : ℕ) (sealed wrap_key : List ℕ)
    {r : ℕ × List ℕ} where
  recover-replace_older :
      max d.generation_a d.generation_b < g
      → try_slot c wrap_key sealed g ≡ some r
      → recover_latest_valid c (replace_older d g sealed) wrap_key ≡ ok r
  unfolding recover_latest_valid replace_older first_of
  recover-replace_older above good = ground arith

  recover-tear :
      (g' : ℕ) (sealed' garbage : List ℕ)
      → max d.generation_a d.generation_b < g
      → try_slot c wrap_key sealed g ≡ some r
      → g < g'
      → try_slot c wrap_key garbage g' ≡ none
      → recover_latest_valid c
          (tear (replace_older (replace_older d g sealed) g' sealed') garbage)
          wrap_key
        ≡ ok r
  unfolding recover_latest_valid replace_older first_of tear
  recover-tear g' sealed' garbage above good later bad = ground arith

newest-replace_older :
    (d : DualSlotContainer) (g : ℕ) (sealed : List ℕ)
    → max d.generation_a d.generation_b < g
    → max (replace_older d g sealed).generation_a (replace_older d g sealed).generation_b ≡ g
unfolding replace_older
newest-replace_older d g sealed above = ground arith

-- A commit that returns a generation is what recovery returns afterwards: that generation, which is
-- above both that the container held, and the payload.
pub commit_state-recover_latest_valid :
    (c : Crypto) (d d' : DualSlotContainer) (payload wrap_key nonce : List ℕ) (g : ℕ)
    → IsLawful c
    → length nonce ≡ 12
    → commit_state c d payload wrap_key nonce ≡ (ok g, d')
    → (recover_latest_valid c d' wrap_key ≡ ok (g, payload))
      × (d.generation_a < g)
      × (d.generation_b < g)
commit_state-recover_latest_valid c d d' payload wrap_key nonce g lawful size h =
    let (next, fits, sealed, made, e) = commit_state-parts c d payload wrap_key nonce h in
    let opens : try_slot c wrap_key sealed g ≡ some (g, payload) =
      try_slot-seal_slot c lawful wrap_key nonce size g payload sealed (omega arith) fits made in
    (
      rw e (recover-replace_older c d g sealed wrap_key (omega arith) opens),
      omega arith,
      omega arith,
    )

-- Two commits that return generations, of which the power goes during the second, so that its slot
-- holds any bytes that do not open: recovery returns the generation and the payload of the first.
pub recover_latest_valid-tear :
    (c : Crypto) (d d₁ d₂ : DualSlotContainer)
    (payload₁ payload₂ wrap_key nonce₁ nonce₂ garbage : List ℕ) (g₁ g₂ : ℕ) (e : Error)
    → IsLawful c
    → length nonce₁ ≡ 12
    → commit_state c d payload₁ wrap_key nonce₁ ≡ (ok g₁, d₁)
    → commit_state c d₁ payload₂ wrap_key nonce₂ ≡ (ok g₂, d₂)
    → open_slot c garbage wrap_key ≡ err e
    → recover_latest_valid c (tear d₂ garbage) wrap_key ≡ ok (g₁, payload₁)
recover_latest_valid-tear c d d₁ d₂ p₁ p₂ wrap_key n₁ n₂ garbage g₁ g₂ e lawful size h₁ h₂ bad =
    let (next₁, fits₁, sealed₁, made₁, e₁) = commit_state-parts c d p₁ wrap_key n₁ h₁ in
    let (next₂, fits₂, sealed₂, made₂, e₂) = commit_state-parts c d₁ p₂ wrap_key n₂ h₂ in
    let opens : try_slot c wrap_key sealed₁ g₁ ≡ some (g₁, p₁) =
      try_slot-seal_slot c lawful wrap_key n₁ size g₁ p₁ sealed₁ (omega arith) fits₁ made₁ in
    let top : max d₁.generation_a d₁.generation_b ≡ g₁ =
      rw e₁ (newest-replace_older d g₁ sealed₁ (omega arith)) in
    let later : g₁ < g₂ = omega arith in
    rw (e₂, e₁)
      (recover-tear c d g₁ sealed₁ wrap_key g₂ sealed₂ garbage (omega arith) opens later
        (try_slot-err c wrap_key garbage g₂ bad))

-- ===== src/Ordered/Snapshot/RoundTrip.antt =====
-- A snapshot that was exported is imported again.
use cripto_endevs_comunity.Base.{
  ℕ, ◌+◌, ◌^◌, ◌≤◌, ◌<◌, ◌≡◌, refl, ◌∙◌, true, List, [], ◌∷◌, ◌++◌, length, arith, ltb, le→ltb,
  lt→ltb, ◌==◌, ==_refl, inl, inr, Option-cases, Bool-cases, list_eq_refl, append-nil, some,
}
use cripto_endevs_comunity.Error.{ok, Result-cases}
use cripto_endevs_comunity.Bytes.{be, slice, index, try_u32, checked_add}
use cripto_endevs_comunity.Bytes.BigEndian.{length-be}
use cripto_endevs_comunity.Bytes.Slices.{flat, slice_at, slice_from_at, read_be_at, length-flat}
use cripto_endevs_comunity.Crypto.{Crypto, IsLawful}
use cripto_endevs_comunity.Ordered.{CryptoNugget}
use cripto_endevs_comunity.Ordered.Snapshot.{
  magic_cnst, from_persisted_state, snapshot_aad, encode_state_v2, decode_hashes, decode_state,
  seal_state, export_state, import_state,
}

-- The sizes of the Rust arrays and numbers of a channel, and a context that a snapshot can hold.
pub record IsNugget (n : CryptoNugget) : Type 0 where
  pub tx_key : length n.tx_key ≡ 32
  pub rx_key : length n.rx_key ≡ 32
  pub tx_seq : n.tx_seq < 2 ^ 64
  pub rx_seq : n.rx_seq < 2 ^ 64
  pub epoch : n.epoch < 2 ^ 64
  pub tx_hash : length n.tx_transcript_hash ≡ 32
  pub rx_hash : length n.rx_transcript_hash ≡ 32
  pub context : length n.context < 2 ^ 32

module _ (n : CryptoNugget) (valid : IsNugget n) where
  abbrev keys : List (List ℕ)
  keys = n.tx_key ∷ n.rx_key ∷ []

  abbrev numbers : List (List ℕ)
  numbers = n.tx_key ∷ n.rx_key ∷ be 8 n.tx_seq ∷ be 8 n.rx_seq ∷ be 8 n.epoch ∷ []

  abbrev fixed : List (List ℕ)
  fixed =
      n.tx_key
      ∷ n.rx_key
      ∷ be 8 n.tx_seq
      ∷ be 8 n.rx_seq
      ∷ be 8 n.epoch
      ∷ n.tx_transcript_hash
      ∷ n.rx_transcript_hash
      ∷ be 4 (length n.context)
      ∷ []

  abbrev state : List ℕ
  state = flat fixed n.context

  encode_state_v2-flat : encode_state_v2 n ≡ ok state
  unfolding encode_state_v2 try_u32
  encode_state_v2-flat = rw (lt→ltb (length n.context) (2 ^ 32) valid.context) refl

  length-state : length state ≡ 156 + length n.context
  length-state = omega (
    arith,
    length-flat fixed n.context,
    length-be 8 n.tx_seq,
    length-be 8 n.rx_seq,
    length-be 8 n.epoch,
    length-be 4 (length n.context),
    valid.tx_key,
    valid.rx_key,
    valid.tx_hash,
    valid.rx_hash,
  )

  decode_state-state : decode_state 2 state n.context ≡ ok (record n { requires_resume_ack = true })
  unfolding decode_state decode_hashes from_persisted_state checked_add
  decode_state-state =
      let a : length n.tx_key ≡ 32 = valid.tx_key in
      let b : length n.rx_key ≡ 32 = valid.rx_key in
      let h : length n.tx_transcript_hash ≡ 32 = valid.tx_hash in
      let h' : length n.rx_transcript_hash ≡ 32 = valid.rx_hash in
      let size : ℕ = length n.context in
      let behind_len : List ℕ = be 4 size ++ n.context in
      let behind_hashes : List ℕ = n.tx_transcript_hash ++ (n.rx_transcript_hash ++ behind_len) in
      let behind_tx : List ℕ =
        be 8 n.tx_seq ++ (be 8 n.rx_seq ++ (be 8 n.epoch ++ behind_hashes)) in
      let l1 = length-be 8 n.tx_seq in
      let l2 = length-be 8 n.rx_seq in
      let l3 = length-be 8 n.epoch in
      let l4 = length-be 4 size in
      let tail : slice 156 (156 + size) state ≡ ok n.context =
        rw append-nil at
          (slice_at fixed 156 (156 + size) n.context [] (omega (arith, l1, l2, l3, l4)) refl) in
      let same : (156 + size == length state) ≡ true = rw length-state (==_refl (156 + size)) in
      let small : ltb (156 + size) (2 ^ 64) ≡ true =
        lt→ltb (156 + size) (2 ^ 64) (omega (arith, valid.context)) in
      rw
        (
          le→ltb (length state) 156 (omega (arith, length-state)),
          slice_at [] 0 32 n.tx_key (n.rx_key ++ behind_tx) refl (omega arith),
          slice_at (n.tx_key ∷ []) 32 64 n.rx_key behind_tx (omega arith) (omega arith),
          read_be_at keys 8 64 n.tx_seq (be 8 n.rx_seq ++ (be 8 n.epoch ++ behind_hashes))
              (omega arith) valid.tx_seq,
          read_be_at (n.tx_key ∷ n.rx_key ∷ be 8 n.tx_seq ∷ []) 8 72 n.rx_seq
              (be 8 n.epoch ++ behind_hashes) (omega (arith, l1)) valid.rx_seq,
          read_be_at (n.tx_key ∷ n.rx_key ∷ be 8 n.tx_seq ∷ be 8 n.rx_seq ∷ []) 8 80 n.epoch
              behind_hashes (omega (arith, l1, l2)) valid.epoch,
          slice_at numbers 88 120 n.tx_transcript_hash (n.rx_transcript_hash ++ behind_len)
              (omega (arith, l1, l2, l3)) (omega arith),
          slice_at
              (n.tx_key
                ∷ n.rx_key
                ∷ be 8 n.tx_seq
                ∷ be 8 n.rx_seq
                ∷ be 8 n.epoch
                ∷ n.tx_transcript_hash
                ∷ [])
              120 152 n.rx_transcript_hash behind_len (omega (arith, l1, l2, l3)) (omega arith),
          read_be_at
              (n.tx_key
                ∷ n.rx_key
                ∷ be 8 n.tx_seq
                ∷ be 8 n.rx_seq
                ∷ be 8 n.epoch
                ∷ n.tx_transcript_hash
                ∷ n.rx_transcript_hash
                ∷ [])
              4 152 size n.context (omega (arith, l1, l2, l3)) valid.context,
          small,
          same,
          tail,
          list_eq_refl n.context,
        )
        refl

module _ (c : Crypto) (lawful : IsLawful c) (wrap nonce context aad ciphertext : List ℕ)
    (size : length nonce ≡ 12) where
  abbrev snapshot : List ℕ
  snapshot = magic_cnst ++ ((2 ∷ []) ++ (nonce ++ ciphertext))

  -- A snapshot whose ciphertext opens is decoded.
  import_state-snapshot :
      (plaintext : List ℕ)
      → snapshot_aad 2 context ≡ ok aad
      → c.encrypt wrap nonce plaintext aad ≡ some ciphertext
      → import_state c snapshot wrap context ≡ decode_state 2 plaintext context
  unfolding import_state index
  import_state-snapshot plaintext same sealed =
      let long : 33 ≤ length snapshot = omega (
        arith,
        length-flat (magic_cnst ∷ (2 ∷ []) ∷ nonce ∷ []) ciphertext,
        lawful.length-encrypt _ _ _ _ _ sealed,
      ) in
      rw
        (
          le→ltb (length snapshot) 33 long,
          slice_at [] 0 4 magic_cnst ((2 ∷ []) ++ (nonce ++ ciphertext)) refl refl,
          slice_at (magic_cnst ∷ (2 ∷ []) ∷ []) 5 17 nonce ciphertext refl (omega arith),
          slice_from_at (magic_cnst ∷ (2 ∷ []) ∷ nonce ∷ []) 17 ciphertext (omega arith),
          same,
          lawful.decrypt-encrypt _ _ _ _ _ sealed,
        )
        refl

-- What `seal_state` made of a channel.
seal_state-parts :
    (c : Crypto) (n : CryptoNugget) (wrap nonce : List ℕ) {bytes : List ℕ} (valid : IsNugget n)
    → seal_state c n wrap nonce ≡ ok bytes
    → (aad : List ℕ) × (ciphertext : List ℕ) × (snapshot_aad 2 n.context ≡ ok aad)
      × (c.encrypt wrap nonce (state n valid) aad ≡ some ciphertext)
      × (bytes ≡ magic_cnst ++ ((2 ∷ []) ++ (nonce ++ ciphertext)))
unfolding seal_state
seal_state-parts c n wrap nonce valid h =
    let encoded = encode_state_v2-flat n valid in
    elim (Result-cases (snapshot_aad 2 n.context)) [
      | inl (aad, made) ↦ elim (Option-cases (c.encrypt wrap nonce (state n valid) aad)) [
        | inl failed ↦ absurd (ground arith)
        | inr (ciphertext, sealed) ↦ (aad, ciphertext, made, sealed, ground arith)
      ]
      | inr other ↦ absurd (ground arith)
    ]

abbrev pub moved : CryptoNugget → CryptoNugget
moved n = record n { epoch = n.epoch + 1 }

pub export_state-parts :
    (c : Crypto) (n n' : CryptoNugget) (wrap nonce bytes : List ℕ)
    → export_state c n wrap nonce ≡ (ok bytes, n')
    → (n' ≡ moved n) × (n.epoch + 1 < 2 ^ 64) × (seal_state c (moved n) wrap nonce ≡ ok bytes)
unfolding export_state checked_add
export_state-parts c n n' wrap nonce bytes h = elim (Bool-cases (ltb (n.epoch + 1) (2 ^ 64))) [
  | inl fits ↦ (ground arith, ground arith, ground arith)
  | inr over ↦ absurd (ground arith)
]

moved-IsNugget : (n : CryptoNugget) → IsNugget n → n.epoch + 1 < 2 ^ 64 → IsNugget (moved n)
moved-IsNugget n valid fits = record {
  tx_key = valid.tx_key;
  rx_key = valid.rx_key;
  tx_seq = valid.tx_seq;
  rx_seq = valid.rx_seq;
  epoch = fits;
  tx_hash = valid.tx_hash;
  rx_hash = valid.rx_hash;
  context = valid.context;
}

-- A snapshot that `export_state` returned, `import_state` reads back with the same key and context:
-- it gives the channel as the export left it, its epoch moved by one, blocked until it is resumed.
pub import_state-export_state :
    (c : Crypto) (n n' : CryptoNugget) (wrap nonce bytes : List ℕ)
    → IsLawful c
    → IsNugget n
    → length nonce ≡ 12
    → export_state c n wrap nonce ≡ (ok bytes, n')
    → (n' ≡ record n { epoch = n.epoch + 1 })
      × (import_state c bytes wrap n.context ≡ ok (record n' { requires_resume_ack = true }))
import_state-export_state c n n' wrap nonce bytes lawful valid size h =
    let (same, fits, sealed) = export_state-parts c n n' wrap nonce bytes h in
    let good : IsNugget (moved n) = moved-IsNugget n valid fits in
    let (aad, ciphertext, made, encrypts, e) =
      seal_state-parts c (moved n) wrap nonce good sealed in
    (
      same,
      rw (same, e)
          (import_state-snapshot c lawful wrap nonce n.context aad ciphertext size
              (state (moved n) good) made encrypts
            ∙ decode_state-state (moved n) good),
    )

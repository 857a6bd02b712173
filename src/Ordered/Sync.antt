-- ===== src/Ordered/Sync.antt =====
-- Two ends of the ordered channel stay in step.
use cripto_endevs_comunity.Base.{
  ℕ, ◌+◌, ◌^◌, ◌<◌, ◌≡◌, refl, ap, ◌∙◌, subst, false, some, List, length, arith, ◌==◌, ◌⊎◌, inl,
  inr, Option-cases, if◌then◌else◌,
}
use cripto_endevs_comunity.Error.{Error, ok, err, panic, Result-cases}
use cripto_endevs_comunity.Bytes.{checked_add}
use cripto_endevs_comunity.Role.{Role, initiator, responder, peer}
use cripto_endevs_comunity.Crypto.{Crypto, IsLawful}
use cripto_endevs_comunity.Packet.{Packet, build_internal_aad_v2_with_epoch}
use cripto_endevs_comunity.Ordered.{
  CryptoNugget, new_with_context, with_keys, nueva_clave, mutar_clave, seal_packet, sealed,
  after_seal, cifrar_bytes_with_aad, try_candidates, open_v2, open_parts, after_open,
  descifrar_bytes_with_aad,
}

-- What `a` sends next is what `b` expects: key, sequence number, epoch and transcript agree.
pub record InSync (a b : CryptoNugget) : Type 0 where
  pub key : a.tx_key ≡ b.rx_key
  pub seq : a.tx_seq ≡ b.rx_seq
  pub epoch : a.epoch ≡ b.epoch
  pub transcript : a.tx_transcript_hash ≡ b.rx_transcript_hash
  pub resumed : b.requires_resume_ack ≡ false

-- The channels of the two roles over one seed and context are in step, both ways.
pub new-InSync :
    (c : Crypto) (seed context : List ℕ) (role : Role)
    → let a = new_with_context c seed role context in
      let b = new_with_context c seed (peer role) context in InSync a b × InSync b a
unfolding new_with_context with_keys
new-InSync c seed context initiator = (
  record { key = refl; seq = refl; epoch = refl; transcript = refl; resumed = refl },
  record { key = refl; seq = refl; epoch = refl; transcript = refl; resumed = refl },
)
new-InSync c seed context responder = (
  record { key = refl; seq = refl; epoch = refl; transcript = refl; resumed = refl },
  record { key = refl; seq = refl; epoch = refl; transcript = refl; resumed = refl },
)

-- A packet that was sealed, with all that it was made of.
pub record SealedAs (c : Crypto) (a : CryptoNugget) (plaintext aad : List ℕ) (p : Packet)
    : Type 0 where
  pub version : p.version ≡ 2
  pub sequence : p.sequence ≡ a.tx_seq
  pub room : a.tx_seq + 1 < 2 ^ 64
  pub internal_aad : List ℕ
  pub same_aad : build_internal_aad_v2_with_epoch p.flags p.sequence aad a.epoch ≡ ok internal_aad
  pub encrypted : c.encrypt a.tx_key p.nonce plaintext internal_aad ≡ some p.ciphertext

module _ (c : Crypto) (a : CryptoNugget) (plaintext aad nonce : List ℕ) where
  seal_packet-SealedAs :
      {p : Packet} {next : ℕ}
      → seal_packet c a plaintext aad nonce ≡ ok (p, next)
      → SealedAs c a plaintext aad p × (next ≡ a.tx_seq + 1)
  unfolding seal_packet sealed checked_add
  seal_packet-SealedAs {p} {next} h =
      let flags : ℕ = if length aad == 0 then 0 else 1 in
      elim (Result-cases (build_internal_aad_v2_with_epoch flags a.tx_seq aad a.epoch)) [
        | inl (internal, e) ↦ elim (Option-cases (c.encrypt a.tx_key nonce plaintext internal)) [
          | inl failed ↦ absurd (ground arith)
          | inr (ct, done) ↦ (
            record {
              version = ground arith;
              sequence = ground arith;
              room = ground arith;
              internal_aad = internal;
              same_aad = ground arith;
              encrypted = ground arith;
            },
            ground arith,
          )
        ]
        | inr other ↦ absurd (ground arith)
      ]

  pub cifrar-SealedAs :
      {p : Packet} {a' : CryptoNugget}
      → cifrar_bytes_with_aad c a plaintext aad nonce ≡ (ok p, a')
      → SealedAs c a plaintext aad p × (a' ≡ after_seal c a p (a.tx_seq + 1))
  unfolding cifrar_bytes_with_aad
  cifrar-SealedAs {p} h = elim (Result-cases (seal_packet c a plaintext aad nonce)) [
    | inl ((q, next), e) ↦
        let same : q ≡ p = ground arith in
        let (made, moved) = seal_packet-SealedAs e in
        (subst (SealedAs c a plaintext aad) same made, ground arith)
    | inr other ↦ absurd (ground arith)
  ]

module _ (c : Crypto) (lawful : IsLawful c) (a b : CryptoNugget) (plaintext aad : List ℕ)
    (p : Packet) where
  open_parts-SealedAs :
      InSync a b
      → SealedAs c a plaintext aad p
      → open_parts c b p aad ≡ ok (b.epoch, plaintext, b.rx_seq + 1)
  unfolding open_parts open_v2 try_candidates checked_add
  open_parts-SealedAs pair s =
      let back : c.decrypt b.rx_key p.nonce p.ciphertext s.internal_aad ≡ some plaintext =
        rw (← pair.key) (
          lawful.decrypt-encrypt a.tx_key p.nonce plaintext s.internal_aad p.ciphertext
            s.encrypted) in
      let same : build_internal_aad_v2_with_epoch p.flags p.sequence aad b.epoch
          ≡ ok s.internal_aad =
        rw (← pair.epoch) s.same_aad in
      let seq : p.sequence ≡ b.rx_seq = s.sequence ∙ pair.seq in
      let room : b.rx_seq + 1 < 2 ^ 64 = rw (← pair.seq) s.room in
      let resumed = pair.resumed in let version = s.version in ground arith

  pub after-InSync :
      InSync a b
      → SealedAs c a plaintext aad p
      → InSync (after_seal c a p (a.tx_seq + 1)) (after_open c b p b.epoch (b.rx_seq + 1))
  unfolding after_seal after_open mutar_clave
  after-InSync pair s = record {
    key = ap (nueva_clave c) pair.key;
    seq = ap (λ (n : ℕ). n + 1) pair.seq;
    epoch = pair.epoch;
    transcript = rw (pair.transcript, pair.epoch, s.sequence) refl;
    resumed = pair.resumed;
  }

  pub back-InSync :
      InSync a b
      → InSync b a
      → InSync (after_open c b p b.epoch (b.rx_seq + 1)) (after_seal c a p (a.tx_seq + 1))
  unfolding after_seal after_open mutar_clave
  back-InSync pair back = record {
    key = back.key;
    seq = back.seq;
    epoch = back.epoch;
    transcript = back.transcript;
    resumed = back.resumed;
  }

  descifrar_bytes-open_parts :
      {epoch next : ℕ}
      → open_parts c b p aad ≡ ok (epoch, plaintext, next)
      → descifrar_bytes_with_aad c b p aad ≡ (ok plaintext, after_open c b p epoch next)
  unfolding descifrar_bytes_with_aad
  descifrar_bytes-open_parts e = rw (e, descifrar_bytes_with_aad) refl

-- What one end seals, the other end in step with it opens: it gets the plaintext, and the two are in
-- step again, both ways.
pub descifrar-cifrar :
    (c : Crypto) (a a' b : CryptoNugget) (plaintext aad nonce : List ℕ) (p : Packet)
    → IsLawful c
    → InSync a b
    → InSync b a
    → cifrar_bytes_with_aad c a plaintext aad nonce ≡ (ok p, a')
    → (b' : CryptoNugget) × (descifrar_bytes_with_aad c b p aad ≡ (ok plaintext, b'))
      × InSync a' b'
      × InSync b' a'
descifrar-cifrar c a a' b plaintext aad nonce p lawful forth back h =
    let (s, moved) = cifrar-SealedAs c a plaintext aad nonce h in
    (
      after_open c b p b.epoch (b.rx_seq + 1),
      descifrar_bytes-open_parts c lawful a b plaintext aad p
          (open_parts-SealedAs c lawful a b plaintext aad p forth s),
      rw moved (after-InSync c lawful a b plaintext aad p forth s),
      rw moved (back-InSync c lawful a b plaintext aad p forth back),
    )

-- A sealing that fails leaves the channel as it was.
pub cifrar-cases :
    (c : Crypto) (a : CryptoNugget) (plaintext aad nonce : List ℕ)
    → ((p : Packet) × (a' : CryptoNugget) × (cifrar_bytes_with_aad c a plaintext aad nonce
          ≡ (ok p, a')))
      ⊎ (((e : Error) × (cifrar_bytes_with_aad c a plaintext aad nonce ≡ (err e, a)))
          ⊎ (cifrar_bytes_with_aad c a plaintext aad nonce ≡ (panic, a)))
unfolding cifrar_bytes_with_aad
cifrar-cases c a plaintext aad nonce = elim (Result-cases (seal_packet c a plaintext aad nonce)) [
  | inl ((p, next), e) ↦ inl (p, after_seal c a p next, rw (e, cifrar_bytes_with_aad) refl)
  | inr (inl (e, failed)) ↦ inr (inl (e, rw (failed, cifrar_bytes_with_aad) refl))
  | inr (inr failed) ↦ inr (inr (rw (failed, cifrar_bytes_with_aad) refl))
]

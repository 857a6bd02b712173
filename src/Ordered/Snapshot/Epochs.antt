-- ===== src/Ordered/Snapshot/Epochs.antt =====
-- Which packets the receiver of the ordered channel opens when its epoch is not the sender's: those
-- of its own epoch and of the next one.
use cripto_endevs_comunity.Base.{
  ℕ, ◌+◌, ◌^◌, ◌<◌, ◌≤◌, ◌≡◌, ◌≢◌, refl, ◌∙◌, false, some, none, List, arith, inl, inr,
}
use cripto_endevs_comunity.Error.{ok, err, autenticacion, Result-cases}
use cripto_endevs_comunity.Bytes.{checked_add, saturating_add, try_u32}
use cripto_endevs_comunity.Crypto.{Crypto, IsLawful}
use cripto_endevs_comunity.Packet.{Packet, build_internal_aad_v2_with_epoch}
use cripto_endevs_comunity.Ordered.{
  CryptoNugget, mutar_clave, cifrar_bytes_with_aad, after_seal, try_candidates, open_v2, open_parts,
  after_open, descifrar_bytes_with_aad,
}
use cripto_endevs_comunity.Ordered.Sync.{
  InSync, SealedAs, cifrar-SealedAs, after-InSync, back-InSync,
}

-- Keys, numbers and transcripts of one direction agree; the epochs need not.
pub record Agree (a b : CryptoNugget) : Type 0 where
  pub key : a.tx_key ≡ b.rx_key
  pub seq : a.tx_seq ≡ b.rx_seq
  pub transcript : a.tx_transcript_hash ≡ b.rx_transcript_hash
  pub resumed : b.requires_resume_ack ≡ false

abbrev pub at_epoch : CryptoNugget → ℕ → CryptoNugget
at_epoch n epoch = record n { epoch = epoch }

-- The ciphertext authenticates under no epoch but the one it was sealed under, up to two
-- further.
unfoldable pub OnlyUnder : Crypto → (key : List ℕ) → Packet → (aad : List ℕ) → (epoch : ℕ) → Type 0
OnlyUnder c key p aad epoch =
    (e : ℕ) (internal_aad : List ℕ)
    → e ≢ epoch
    → e ≤ epoch + 2
    → build_internal_aad_v2_with_epoch p.flags p.sequence aad e ≡ ok internal_aad
    → c.decrypt key p.nonce p.ciphertext internal_aad ≡ none

-- Whether the associated data can be built does not depend on the epoch.
build_internal_aad-epoch :
    (flags sequence epoch epoch' : ℕ) (aad : List ℕ) {internal_aad : List ℕ}
    → build_internal_aad_v2_with_epoch flags sequence aad epoch ≡ ok internal_aad
    → (other : List ℕ) × (build_internal_aad_v2_with_epoch flags sequence aad epoch' ≡ ok other)
unfolding build_internal_aad_v2_with_epoch try_u32
build_internal_aad-epoch flags sequence epoch epoch' aad h =
    elim (Result-cases (build_internal_aad_v2_with_epoch flags sequence aad epoch')) [
      | inl made ↦ made
      | inr failed ↦ absurd (ground arith)
    ]

module _ (c : Crypto) (lawful : IsLawful c) (a b : CryptoNugget) (plaintext aad : List ℕ)
    (p : Packet) (agree : Agree a b) (s : SealedAs c a plaintext aad p) where
  opens : c.decrypt b.rx_key p.nonce p.ciphertext s.internal_aad ≡ some plaintext
  opens =
      rw (← agree.key)
        (lawful.decrypt-encrypt a.tx_key p.nonce plaintext s.internal_aad p.ciphertext s.encrypted)

  open_v2-same : b.epoch ≡ a.epoch → open_v2 c b p aad ≡ ok (a.epoch, plaintext)
  unfolding open_v2 try_candidates
  open_v2-same e = let o = opens in let made = s.same_aad in rw e (ground arith)

  -- The data of another epoch, which do not open the packet.
  other_epoch :
      (e : ℕ)
      → OnlyUnder c b.rx_key p aad a.epoch
      → e ≢ a.epoch
      → e ≤ a.epoch + 2
      → (internal_aad : List ℕ) × (build_internal_aad_v2_with_epoch p.flags p.sequence aad e
          ≡ ok internal_aad)
        × (c.decrypt b.rx_key p.nonce p.ciphertext internal_aad ≡ none)
  unfolding OnlyUnder
  other_epoch e only other near =
      let (internal, made) = build_internal_aad-epoch p.flags p.sequence a.epoch e aad s.same_aad in
      (internal, made, only e internal other near made)

  open_v2-next :
      OnlyUnder c b.rx_key p aad a.epoch
      → b.epoch + 1 ≡ a.epoch
      → a.epoch < 2 ^ 64
      → open_v2 c b p aad ≡ ok (a.epoch, plaintext)
  unfolding open_v2 try_candidates saturating_add
  open_v2-next only e room =
      let (old, made_old, fails) = other_epoch b.epoch only (omega arith) (omega arith) in
      let o = opens in
      let made = s.same_aad in
      let made' : build_internal_aad_v2_with_epoch p.flags p.sequence aad (b.epoch + 1)
          ≡ ok s.internal_aad =
        rw e made in
      let next : saturating_add b.epoch 1 ≡ b.epoch + 1 = ground arith in ground arith

  open_v2-other :
      OnlyUnder c b.rx_key p aad a.epoch
      → b.epoch ≢ a.epoch
      → b.epoch + 1 ≢ a.epoch
      → b.epoch ≤ a.epoch + 1
      → b.epoch + 1 < 2 ^ 64
      → open_v2 c b p aad ≡ err autenticacion
  unfolding open_v2 try_candidates saturating_add
  open_v2-other only e e' near room =
      let (own, made, fails) = other_epoch b.epoch only e (omega arith) in
      let (next, made', fails') = other_epoch (b.epoch + 1) only e' (omega arith) in
      let saturates : saturating_add b.epoch 1 ≡ b.epoch + 1 = ground arith in ground arith

  -- What `descifrar_bytes_with_aad` answers is what the candidates answer.
  descifrar_bytes-ok :
      open_v2 c b p aad ≡ ok (a.epoch, plaintext)
      → descifrar_bytes_with_aad c b p aad ≡ (ok plaintext, after_open c b p a.epoch (b.rx_seq + 1))
  unfolding open_parts checked_add descifrar_bytes_with_aad
  descifrar_bytes-ok e =
      let version = s.version in
      let resumed = agree.resumed in
      let seq : p.sequence ≡ b.rx_seq = s.sequence ∙ agree.seq in
      let room : b.rx_seq + 1 < 2 ^ 64 = rw (← agree.seq) s.room in
      let parts : open_parts c b p aad ≡ ok (a.epoch, plaintext, b.rx_seq + 1) = ground arith in
      rw (parts, descifrar_bytes_with_aad) refl

  descifrar_bytes-err :
      open_v2 c b p aad ≡ err autenticacion
      → descifrar_bytes_with_aad c b p aad ≡ (err autenticacion, b)
  unfolding open_parts checked_add descifrar_bytes_with_aad
  descifrar_bytes-err e =
      let version = s.version in
      let resumed = agree.resumed in
      let seq : p.sequence ≡ b.rx_seq = s.sequence ∙ agree.seq in
      let room : b.rx_seq + 1 < 2 ^ 64 = rw (← agree.seq) s.room in
      let parts : open_parts c b p aad ≡ err autenticacion = ground arith in
      rw (parts, descifrar_bytes_with_aad) refl

  -- At the epoch of the sender the other end is in step with it.
  Agree-InSync : InSync a (at_epoch b a.epoch)
  Agree-InSync = record {
    key = agree.key;
    seq = agree.seq;
    epoch = refl;
    transcript = agree.transcript;
    resumed = agree.resumed;
  }

  agreed_InSync : Agree b a → InSync (at_epoch b a.epoch) a
  agreed_InSync back = record {
    key = back.key;
    seq = back.seq;
    epoch = refl;
    transcript = back.transcript;
    resumed = back.resumed;
  }

  opened-InSync :
      Agree b a
      → let a' = after_seal c a p (a.tx_seq + 1) in
        let b' = after_open c b p a.epoch (b.rx_seq + 1) in InSync a' b' × InSync b' a'
  unfolding after_seal after_open mutar_clave
  opened-InSync back =
      let at : CryptoNugget = at_epoch b a.epoch in
      (
        after-InSync c lawful a at plaintext aad p Agree-InSync s,
        back-InSync c lawful a at plaintext aad p Agree-InSync (agreed_InSync back),
      )

module _ (c : Crypto) (a a' b : CryptoNugget) (plaintext aad nonce : List ℕ) (p : Packet)
    (lawful : IsLawful c) (agree : Agree a b)
    (h : cifrar_bytes_with_aad c a plaintext aad nonce ≡ (ok p, a')) where
  -- The sender was an epoch ahead: both are in step again.
  pub descifrar-ahead :
      Agree b a
      → OnlyUnder c b.rx_key p aad a.epoch
      → b.epoch + 1 ≡ a.epoch
      → a.epoch < 2 ^ 64
      → (b' : CryptoNugget) × (descifrar_bytes_with_aad c b p aad ≡ (ok plaintext, b'))
        × InSync a' b'
        × InSync b' a'
  descifrar-ahead back only e room =
      let (s, moved) = cifrar-SealedAs c a plaintext aad nonce h in
      let (forth', back') = opened-InSync c lawful a b plaintext aad p agree s back in
      (
        after_open c b p a.epoch (b.rx_seq + 1),
        descifrar_bytes-ok c lawful a b plaintext aad p agree s
            (open_v2-next c lawful a b plaintext aad p agree s only e room),
        rw moved forth',
        rw moved back',
      )

  pub descifrar-apart :
      OnlyUnder c b.rx_key p aad a.epoch
      → b.epoch ≢ a.epoch
      → b.epoch + 1 ≢ a.epoch
      → b.epoch ≤ a.epoch + 1
      → b.epoch + 1 < 2 ^ 64
      → descifrar_bytes_with_aad c b p aad ≡ (err autenticacion, b)
  descifrar-apart only e e' near room =
      let (s, moved) = cifrar-SealedAs c a plaintext aad nonce h in
      descifrar_bytes-err c lawful a b plaintext aad p agree s
        (open_v2-other c lawful a b plaintext aad p agree s only e e' near room)

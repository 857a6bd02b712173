-- ===== src/Replay/Channel.antt =====
-- Two ends of a channel: what one seals the other opens.
use cripto_endevs_comunity.Base.{
  ℕ, codes, ◌++◌, ◌∷◌, ◌≤◌, ◌⊎◌, none, ◌||◌, ltb, Bool-cases, ◌+◌, ◌^◌, ◌<◌, ◌≡◌, refl, subst, true,
  some, List, length, arith, Option-cases, inl, inr, if◌then◌else◌, list_eq, list_eq_refl, ◌==◌,
}
use cripto_endevs_comunity.Error.{ok, err, modo_invalido, Result-cases}
use cripto_endevs_comunity.Crypto.{Crypto, IsLawful, hkdf}
use cripto_endevs_comunity.Packet.{Packet, build_internal_aad_v2}
use cripto_endevs_comunity.Role.{Role, initiator, responder, peer}
use cripto_endevs_comunity.Replay.{
  ReplayWindowChannel, new_with_context, with_keys, seal, seal_packet, open_packet, open_plaintext,
  ensure_sequence_is_new, compute_nonce, mark_seen,
}

-- What `a` sends, `b` has the key and the nonce mask to receive.
pub record SendsTo (a b : ReplayWindowChannel) : Type 0 where
  pub key : a.tx_key ≡ b.rx_key
  pub mask : a.tx_nonce_mask ≡ b.rx_nonce_mask

-- The channels of the two roles over one seed, context and window send to one another.
new-SendsTo :
    (c : Crypto) (seed context : List ℕ) (window : ℕ) (role : Role) {a b : ReplayWindowChannel}
    → new_with_context c seed role context window ≡ ok a
    → new_with_context c seed (peer role) context window ≡ ok b
    → SendsTo a b × SendsTo b a
unfolding new_with_context
new-SendsTo c seed context window role {a} {b} ha hb = ground arith

with_keys-IsFresh :
    (key_a key_b mask_a mask_b : List ℕ) (window : ℕ) (role : Role)
    → length mask_a ≡ 12
    → length mask_b ≡ 12
    → let ch = with_keys key_a key_b mask_a mask_b window role in
      (ch.window ≡ window) × (ch.highest_seen ≡ none) × (length ch.tx_nonce_mask ≡ 12)
unfolding with_keys
with_keys-IsFresh key_a key_b mask_a mask_b window initiator a b = (refl, refl, a)
with_keys-IsFresh key_a key_b mask_a mask_b window responder a b = (refl, refl, b)

-- A channel is built exactly for a window of 1 to 128, and is then one that has received nothing,
-- with that window and a mask of 12 bytes; for any other window the error is `ModoInvalido`.
new_with_context-cases :
    (c : Crypto) (seed : List ℕ) (role : Role) (context : List ℕ) (window : ℕ)
    → IsLawful c
    → ((1 ≤ window)
        × (window ≤ 128)
        × (ch : ReplayWindowChannel) × (new_with_context c seed role context window ≡ ok ch)
        × (ch.window ≡ window)
        × (ch.highest_seen ≡ none)
        × (length ch.tx_nonce_mask ≡ 12))
      ⊎ (((window ≡ 0) ⊎ (128 < window))
          × (new_with_context c seed role context window ≡ err modo_invalido))
unfolding new_with_context
new_with_context-cases c seed role context window lawful =
    elim (Bool-cases (window == 0 || ltb 128 window)) [
      | inl bad ↦ inr (ground arith, rw bad refl)
      | inr good ↦
          let salt : List ℕ = codes "CryptoNugget:replay-window:v1" ++ (0 ∷ context) in
          let key_a : List ℕ = hkdf c salt seed (codes "window-key:a") 32 in
          let key_b : List ℕ = hkdf c salt seed (codes "window-key:b") 32 in
          let mask_a : List ℕ = hkdf c salt seed (codes "window-mask:a") 12 in
          let mask_b : List ℕ = hkdf c salt seed (codes "window-mask:b") 12 in
          let (size, empty, mask) =
            with_keys-IsFresh key_a key_b mask_a mask_b window role (lawful.length-expand _ _ 12)
              (lawful.length-expand _ _ 12) in
          inl (
            ground arith,
            ground arith,
            with_keys key_a key_b mask_a mask_b window role,
            rw good refl,
            size,
            empty,
            mask,
          )
    ]

-- A packet that `seal` returned, with all that it was made of.
pub record SealedAs (c : Crypto) (a : ReplayWindowChannel) (plaintext aad : List ℕ) (p : Packet)
    : Type 0 where
  pub version : p.version ≡ 2
  pub sequence : p.sequence ≡ a.tx_seq
  pub nonce : p.nonce ≡ compute_nonce a.tx_nonce_mask a.tx_seq
  pub room : a.tx_seq + 1 < 2 ^ 64
  pub internal_aad : List ℕ
  pub same_aad : build_internal_aad_v2 p.flags p.sequence aad ≡ ok internal_aad
  pub encrypted : c.encrypt a.tx_key p.nonce plaintext internal_aad ≡ some p.ciphertext

pub seal_packet-SealedAs :
    (c : Crypto) (a : ReplayWindowChannel) (plaintext aad : List ℕ) {p : Packet} {next : ℕ}
    → seal_packet c a plaintext aad ≡ ok (p, next)
    → SealedAs c a plaintext aad p × (next ≡ a.tx_seq + 1)
unfolding seal_packet
seal_packet-SealedAs c a plaintext aad {p} {next} h =
    let flags : ℕ = if length aad == 0 then 0 else 1 in
    let nonce : List ℕ = compute_nonce a.tx_nonce_mask a.tx_seq in
    elim (Result-cases (build_internal_aad_v2 flags a.tx_seq aad)) [
      | inl (internal, e) ↦ elim (Option-cases (c.encrypt a.tx_key nonce plaintext internal)) [
        | inl failed ↦ absurd (ground arith)
        | inr (ct, done) ↦ (
          record {
            version = ground arith;
            sequence = ground arith;
            nonce = ground arith;
            room = ground arith;
            internal_aad = internal;
            same_aad = ground arith;
            encrypted = ground arith;
          },
          ground arith,
        )
      ]
      | inr other ↦ absurd (ground arith)
    ]

seal-SealedAs :
    (c : Crypto) (a : ReplayWindowChannel) (plaintext aad : List ℕ) {p : Packet}
    → (seal c a plaintext aad).0 ≡ ok p
    → SealedAs c a plaintext aad p
      × ((seal c a plaintext aad).1 ≡ record a { tx_seq = a.tx_seq + 1 })
unfolding seal
seal-SealedAs c a plaintext aad {p} h = elim (Result-cases (seal_packet c a plaintext aad)) [
  | inl ((q, next), e) ↦
      let same : q ≡ p = ground arith in
      let (made, moved) = seal_packet-SealedAs c a plaintext aad e in
      (subst (SealedAs c a plaintext aad) same made, ground arith)
  | inr other ↦ absurd (ground arith)
]

-- A packet that one side sealed, the other side opens with the same associated data, if its window
-- takes the sequence number. It gets the plaintext back and has recorded the number.
pub open_packet-seal :
    (c : Crypto) (a b : ReplayWindowChannel) (plaintext aad : List ℕ) {p : Packet}
    → IsLawful c
    → SendsTo a b
    → (seal c a plaintext aad).0 ≡ ok p
    → ensure_sequence_is_new b p.sequence ≡ ok tt
    → open_packet c b p aad ≡ (ok plaintext, mark_seen b p.sequence)
unfolding open_packet
open_packet-seal c a b plaintext aad {p} lawful pair sent new =
    let (s, _) = seal-SealedAs c a plaintext aad sent in
    let nonce : list_eq p.nonce (compute_nonce b.rx_nonce_mask p.sequence) ≡ true =
      rw (← pair.mask, s.sequence, ← s.nonce) (list_eq_refl p.nonce) in
    let back : c.decrypt b.rx_key p.nonce p.ciphertext s.internal_aad ≡ some plaintext =
      rw (← pair.key) (
        lawful.decrypt-encrypt a.tx_key p.nonce plaintext s.internal_aad p.ciphertext
          s.encrypted) in
    let opens : open_plaintext c b p aad ≡ ok plaintext =
      unfold open_plaintext in ground (arith, s.version, s.same_aad) in
    rw (opens, open_packet) refl

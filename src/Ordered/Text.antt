-- ===== src/Ordered/Text.antt =====
-- Messages of the ordered channel as texts: the base64 of a packet.
use cripto_endevs_comunity.Base.{
  ℕ, ◌≤◌, ◌^◌, ◌<◌, ◌≡◌, refl, ap, ◌∙◌, true, List, [], length, arith, inl, inr, Option-cases,
  subst,
}
use cripto_endevs_comunity.Error.{ok, Result-cases}
use cripto_endevs_comunity.Bytes.{checked_add, IsBytes}
use cripto_endevs_comunity.Crypto.{Crypto, IsLawful}
use cripto_endevs_comunity.Packet.{
  Packet, IsPacket, to_bytes, to_base64, from_base64, build_internal_aad_v2_with_epoch,
}
use cripto_endevs_comunity.Packet.RoundTrip.{carried, from_bytes-to_bytes, to_bytes-IsBytes}
use cripto_endevs_comunity.Ordered.{
  CryptoNugget, seal_packet, sealed, cifrar_bytes_with_aad, cifrar_bytes, open_parts, open_v1,
  open_v2, try_candidates, after_open, descifrar_bytes_with_aad, descifrar_bytes, descifrar,
}
use cripto_endevs_comunity.Ordered.Sync.{InSync, descifrar-cifrar, cifrar-cases}

-- What the fields of a packet that was sealed without associated data are.
module _ (c : Crypto) (lawful : IsLawful c) (a : CryptoNugget) (plaintext nonce : List ℕ)
    (room : a.epoch < 2 ^ 64) (nonce_len : length nonce ≡ 12) (nonce_bytes : IsBytes nonce)
    (plain : IsBytes plaintext) where
  seal_packet-IsPacket :
      {p : Packet} {next : ℕ}
      → seal_packet c a plaintext [] nonce ≡ ok (p, next)
      → IsPacket p × (p.version ≡ 2) × (16 ≤ length p.ciphertext)
  unfolding seal_packet sealed checked_add
  seal_packet-IsPacket {p} {next} h =
      elim (Result-cases (build_internal_aad_v2_with_epoch 0 a.tx_seq [] a.epoch)) [
        | inl (internal, e) ↦ elim (Option-cases (c.encrypt a.tx_key nonce plaintext internal)) [
          | inl failed ↦ absurd (ground arith)
          | inr (ct, done) ↦
              let body : p.ciphertext ≡ ct = ground arith in
              let own : p.nonce ≡ nonce = ground arith in
              let size = lawful.length-encrypt a.tx_key nonce plaintext internal ct done in
              (
                record {
                  version = ground arith;
                  flags = ground arith;
                  node_id = ground arith;
                  epoch = ground arith;
                  sequence = ground arith;
                  timestamp_ms = ground arith;
                  nonce = rw own nonce_len;
                  nonce_bytes = rw own nonce_bytes;
                  ciphertext =
                      rw body
                        (lawful.encrypt-IsBytes a.tx_key nonce plaintext internal ct plain done);
                },
                ground arith,
                rw body (omega (arith, size)),
              )
        ]
        | inr other ↦ absurd (ground arith)
      ]

  cifrar-IsPacket :
      {p : Packet} {a' : CryptoNugget}
      → cifrar_bytes_with_aad c a plaintext [] nonce ≡ (ok p, a')
      → IsPacket p × (p.version ≡ 2) × (16 ≤ length p.ciphertext)
  unfolding cifrar_bytes_with_aad
  cifrar-IsPacket {p} h = elim (Result-cases (seal_packet c a plaintext [] nonce)) [
    | inl ((q, next), e) ↦
        let same : q ≡ p = ground arith in
        subst (λ (p : Packet). IsPacket p × (p.version ≡ 2) × (16 ≤ length p.ciphertext)) same
          (seal_packet-IsPacket e)
    | inr other ↦ absurd (ground arith)
  ]

-- The receiver reads of a packet what the wire carries of it.
descifrar_bytes-carried :
    (c : Crypto) (b : CryptoNugget) (p : Packet)
    → p.version ≡ 2
    → descifrar_bytes_with_aad c b (carried p) [] ≡ descifrar_bytes_with_aad c b p []
unfolding descifrar_bytes_with_aad open_parts open_v2 try_candidates open_v1 after_open
descifrar_bytes-carried c b p v2 =
    let same : carried p ≡ record p { node_id = 0; epoch = 0; timestamp_ms = 0 } = rw v2 refl in
    ap (λ (q : Packet). descifrar_bytes_with_aad c b q []) same

from_base64-to_base64 :
    (c : Crypto) (p : Packet)
    → IsLawful c
    → IsPacket p
    → p.version ≡ 2
    → 16 ≤ length p.ciphertext
    → from_base64 c (to_base64 c p) ≡ ok (carried p)
unfolding from_base64 to_base64
from_base64-to_base64 c p lawful valid v2 tagged =
    rw (lawful.decode-encode (to_bytes p) (to_bytes-IsBytes p valid))
      (from_bytes-to_bytes p valid tagged (omega arith, omega arith))

module _ (c : Crypto) (lawful : IsLawful c) (b : CryptoNugget) (plaintext : List ℕ) (p : Packet)
    (valid : IsPacket p) (v2 : p.version ≡ 2) (tagged : 16 ≤ length p.ciphertext) where
  descifrar_bytes-to_base64 :
      descifrar_bytes c b (to_base64 c p) ≡ descifrar_bytes_with_aad c b p []
  unfolding descifrar_bytes
  descifrar_bytes-to_base64 =
      rw (from_base64-to_base64 c p lawful valid v2 tagged, descifrar_bytes)
        (descifrar_bytes-carried c b p v2)

  descifrar-to_base64 :
      {b' : CryptoNugget}
      → c.is_utf8 plaintext ≡ true
      → descifrar_bytes_with_aad c b p [] ≡ (ok plaintext, b')
      → descifrar c b (to_base64 c p) ≡ (ok plaintext, b')
  unfolding descifrar
  descifrar-to_base64 text opens = rw (descifrar_bytes-to_base64 ∙ opens, text, descifrar) refl

-- Of two ends in step, one makes a text of a message: the other end, if the message was text, gets it
-- back from that text, and the two are in step again, both ways.
pub descifrar-cifrar_bytes :
    (c : Crypto) (a a' b : CryptoNugget) (plaintext nonce text : List ℕ)
    → IsLawful c
    → InSync a b
    → InSync b a
    → a.epoch < 2 ^ 64
    → length nonce ≡ 12
    → IsBytes nonce
    → IsBytes plaintext
    → c.is_utf8 plaintext ≡ true
    → cifrar_bytes c a plaintext nonce ≡ (ok text, a')
    → (b' : CryptoNugget) × (descifrar c b text ≡ (ok plaintext, b')) × InSync a' b' × InSync b' a'
unfolding cifrar_bytes
descifrar-cifrar_bytes c a a' b plaintext nonce text lawful forth back room size drawn plain utf h =
    elim (cifrar-cases c a plaintext [] nonce) [
      | inl (p, a'', e) ↦
          let (valid, v2, tagged) =
            cifrar-IsPacket c lawful a plaintext nonce room size drawn plain e in
          let (b', opens, forth', back') =
            descifrar-cifrar c a a'' b plaintext [] nonce p lawful forth back e in
          let made : to_base64 c p ≡ text = ground arith in
          let left : a'' ≡ a' = ground arith in
          (
            b',
            rw (← made) (descifrar-to_base64 c lawful b plaintext p valid v2 tagged utf opens),
            subst (λ (n : CryptoNugget). InSync n b') left forth',
            subst (λ (n : CryptoNugget). InSync b' n) left back',
          )
      | inr (inl (x, e)) ↦ absurd (ground arith)
      | inr (inr e) ↦ absurd (ground arith)
    ]

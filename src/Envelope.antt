-- ===== src/Envelope.antt =====
-- src/modes/envelope.rs: messages that each have their own key, and no state between them. The nonce
-- that `seal` draws from `OsRng` is an argument.
mod Tests
use cripto_endevs_comunity.Base.{
  ℕ, ◌≡◌, refl, Option, some, none, List, [], ◌∷◌, ◌++◌, length, ◌==◌, if◌then◌else◌, codes, arith,
  inl, inr, Option-cases,
}
use cripto_endevs_comunity.Error.{
  Error, Result, ok, err, panic, ◌>>=◌, ◌>>◌, require, cifrado, autenticacion, version_no_soportada,
  Result-cases,
}
use cripto_endevs_comunity.Crypto.{Crypto, IsLawful, hkdf}
use cripto_endevs_comunity.Packet.{
  Packet, flag_aad_present, wire_version_v2, build_internal_aad_v2, nonce_len,
}

pub record StatelessEnvelope : Type 0 where
  pub root_key : List ℕ

unfoldable pub new_with_context : Crypto → (seed context : List ℕ) → StatelessEnvelope
new_with_context c seed context = record {
  root_key =
      hkdf c (codes "CryptoNugget:envelope:v1" ++ (0 ∷ context)) seed
        (codes "stateless-envelope-root") 32;
}

-- `StatelessEnvelope::new`, with `DEFAULT_CONTEXT`
pub new : Crypto → (seed : List ℕ) → StatelessEnvelope
new c seed = new_with_context c seed (codes "cryptonugget:v1")

pub derive_message_key : Crypto → StatelessEnvelope → (nonce : List ℕ) → List ℕ
derive_message_key c e nonce = hkdf c (codes "CryptoNugget:envelope:message:v1") e.root_key nonce 32

pub sealed : (flags : ℕ) → (nonce : List ℕ) → Option (List ℕ) → Result Packet
sealed flags nonce none = err cifrado
sealed flags nonce (some ciphertext) = ok (record {
  version = wire_version_v2;
  flags = flags;
  node_id = 0;
  epoch = 0;
  sequence = 0;
  timestamp_ms = 0;
  nonce = nonce;
  ciphertext = ciphertext;
})

pub seal : Crypto → StatelessEnvelope → (plaintext aad nonce : List ℕ) → Result Packet
seal c e plaintext aad nonce = do
  let flags = if length aad == 0 then 0 else flag_aad_present
  internal_aad ← build_internal_aad_v2 flags 0 aad
  sealed flags nonce (c.encrypt (derive_message_key c e nonce) nonce plaintext internal_aad)

abbrev opened : Option (List ℕ) → Result (List ℕ)
opened none = err autenticacion
opened (some plaintext) = ok plaintext

pub open_packet : Crypto → StatelessEnvelope → Packet → (aad : List ℕ) → Result (List ℕ)
open_packet c e packet aad = do
  require (packet.version == wire_version_v2) (version_no_soportada packet.version)
  internal_aad ← build_internal_aad_v2 packet.flags packet.sequence aad
  opened
      (c.decrypt (derive_message_key c e packet.nonce) packet.nonce packet.ciphertext internal_aad)

-- Whatever an envelope seals, it opens again with the same associated data, as often as wanted.
pub envelope_open-seal :
    (c : Crypto) (e : StatelessEnvelope) (plaintext aad nonce : List ℕ) (p : Packet)
    → IsLawful c
    → seal c e plaintext aad nonce ≡ ok p
    → open_packet c e p aad ≡ ok plaintext
unfolding seal open_packet sealed
envelope_open-seal c e plaintext aad nonce p lawful h =
    let flags : ℕ = if length aad == 0 then 0 else 1 in
    elim (Result-cases (build_internal_aad_v2 flags 0 aad)) [
      | inl (internal, made) ↦
          elim (Option-cases (c.encrypt (derive_message_key c e nonce) nonce plaintext internal)) [
            | inl failed ↦ absurd (ground arith)
            | inr (ct, done) ↦
                let back =
                  lawful.decrypt-encrypt (derive_message_key c e nonce) nonce plaintext internal ct
                    done in
                ground arith
          ]
      | inr other ↦ absurd (ground arith)
    ]

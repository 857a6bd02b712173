-- ===== src/Ordered.antt =====
-- src/modes/ordered.rs: the channel `CryptoNugget`, whose keys change with every message and whose
-- transcripts hash all of them. An operation takes the channel and returns the one it leaves; the
-- nonce that encryption draws from `OsRng` is an argument.
pub mod Sync
pub mod Talk
mod Text
pub mod Snapshot
pub mod Links
mod Tests
use cripto_endevs_comunity.Base.{
  ℕ, ◌+◌, ◌-◌, ◌^◌, Bool, true, false, Option, some, none, List, [], ◌∷◌, ◌++◌, length, drop, ltb,
  leb, ◌==◌, if◌then◌else◌, codes, not,
}
use cripto_endevs_comunity.Error.{
  Error, Result, ok, err, panic, ◌>>=◌, ◌>>◌, reject, require, cifrado, autenticacion,
  version_no_soportada, estado_sin_reanudar, utf8,
}
use cripto_endevs_comunity.Role.{Role, initiator, responder}
use cripto_endevs_comunity.Bytes.{be, checked_add, saturating_add}
use cripto_endevs_comunity.Crypto.{Crypto, hkdf}
use cripto_endevs_comunity.Packet.{
  Packet, flag_aad_present, wire_version_v1, wire_version_v2, build_internal_aad_v1,
  build_internal_aad_v2_with_epoch, tag_len, to_base64, from_base64,
}

pub record CryptoNugget : Type 0 where
  pub tx_key : List ℕ
  pub rx_key : List ℕ
  pub tx_seq : ℕ
  pub rx_seq : ℕ
  pub epoch : ℕ
  pub tx_transcript_hash : List ℕ
  pub rx_transcript_hash : List ℕ
  pub context : List ℕ
  pub requires_resume_ack : Bool

-- The channel of a side, from the keys and first hashes of the two directions.
pub with_keys : (clave_a clave_b init_hash_a init_hash_b context : List ℕ) → Role → CryptoNugget
with_keys clave_a clave_b init_hash_a init_hash_b context initiator = record {
  tx_key = clave_a;
  rx_key = clave_b;
  tx_seq = 0;
  rx_seq = 0;
  epoch = 0;
  tx_transcript_hash = init_hash_a;
  rx_transcript_hash = init_hash_b;
  context = context;
  requires_resume_ack = false;
}
with_keys clave_a clave_b init_hash_a init_hash_b context responder = record {
  tx_key = clave_b;
  rx_key = clave_a;
  tx_seq = 0;
  rx_seq = 0;
  epoch = 0;
  tx_transcript_hash = init_hash_b;
  rx_transcript_hash = init_hash_a;
  context = context;
  requires_resume_ack = false;
}

pub new_with_context : Crypto → (seed : List ℕ) → Role → (context : List ℕ) → CryptoNugget
new_with_context c seed role context =
    let salt : List ℕ = codes "CryptoNugget:seed:v1" ++ (0 ∷ context) in
    with_keys (hkdf c salt seed (codes "tx-key:a") 32) (hkdf c salt seed (codes "tx-key:b") 32)
      (hkdf c salt seed (codes "transcript:a") 32) (hkdf c salt seed (codes "transcript:b") 32)
      context role

abbrev pub default_context : List ℕ
default_context = codes "cryptonugget:v1"

pub new : Crypto → (seed : List ℕ) → Role → CryptoNugget
new c seed role = new_with_context c seed role default_context

-- `update_transcript`: the accumulator that it writes.
pub update_transcript :
    Crypto → (acc : List ℕ) → (epoch seq : ℕ) → (nonce ciphertext : List ℕ) → List ℕ
update_transcript c acc epoch seq nonce ciphertext = c.sha256 (
    codes "CryptoNugget:Transcript:v1"
    ++ (acc
        ++ (be 8 epoch ++ (be 8 seq ++ (nonce ++ drop (length ciphertext - tag_len) ciphertext)))))

-- The key that `mutar_clave` puts in place of the current one.
pub nueva_clave : Crypto → (clave_actual : List ℕ) → List ℕ
nueva_clave c clave_actual =
    hkdf c (codes "CryptoNugget:ratchet:v1") clave_actual (codes "ratchet-key:v1") 32

pub mutar_clave : Crypto → CryptoNugget → (es_tx : Bool) → CryptoNugget
mutar_clave c n true = record n { tx_key = nueva_clave c n.tx_key }
mutar_clave c n false = record n { rx_key = nueva_clave c n.rx_key }

pub sealed : CryptoNugget → (flags : ℕ) → (nonce : List ℕ) → Option (List ℕ) → Result Packet
sealed n flags nonce none = err cifrado
sealed n flags nonce (some ciphertext) = ok (record {
  version = wire_version_v2;
  flags = flags;
  node_id = 0;
  epoch = n.epoch;
  sequence = n.tx_seq;
  timestamp_ms = 0;
  nonce = nonce;
  ciphertext = ciphertext;
})

-- The packet that `cifrar_bytes_with_aad` returns, and the next counter.
pub seal_packet : Crypto → CryptoNugget → (plaintext user_aad nonce : List ℕ) → Result (Packet × ℕ)
seal_packet c n plaintext user_aad nonce = do
  reject n.requires_resume_ack estado_sin_reanudar
  next_seq ← checked_add n.tx_seq 1 cifrado
  let flags = if length user_aad == 0 then 0 else flag_aad_present
  internal_aad ← build_internal_aad_v2_with_epoch flags n.tx_seq user_aad n.epoch
  packet ← sealed n flags nonce (c.encrypt n.tx_key nonce plaintext internal_aad)
  ok (packet, next_seq)

-- What the channel becomes when it has sealed a packet.
pub after_seal : Crypto → CryptoNugget → Packet → (next_seq : ℕ) → CryptoNugget
after_seal c n packet next_seq =
    let hashed : CryptoNugget = record n {
      tx_transcript_hash =
          update_transcript c n.tx_transcript_hash n.epoch n.tx_seq packet.nonce packet.ciphertext;
    } in
    record (mutar_clave c hashed true) { tx_seq = next_seq }

pub cifrar_bytes_with_aad :
    Crypto → CryptoNugget → (plaintext user_aad nonce : List ℕ) → Result Packet × CryptoNugget
cifrar_bytes_with_aad c n plaintext user_aad nonce =
    elim (seal_packet c n plaintext user_aad nonce) [
      | ok (packet, next_seq) ↦ (ok packet, after_seal c n packet next_seq)
      | err e ↦ (err e, n)
      | panic ↦ (panic, n)
    ]

-- `cifrar_bytes`; `cifrar` is the same on the bytes of its text.
pub cifrar_bytes :
    Crypto → CryptoNugget → (plaintext nonce : List ℕ) → Result (List ℕ) × CryptoNugget
cifrar_bytes c n plaintext nonce =
    let (packet, n') = cifrar_bytes_with_aad c n plaintext [] nonce in
    ((do p ← packet; ok (to_base64 c p)), n')

-- The loop over the candidates: the first epoch under which the packet opens, and its plaintext.
pub try_candidates :
    Crypto
    → (rx_key : List ℕ) → Packet
    → (user_aad : List ℕ) → List ℕ
    → Result (Option (ℕ × List ℕ))
try_candidates c rx_key packet user_aad [] = ok none
try_candidates c rx_key packet user_aad (candidate ∷ candidates) = do
  internal_aad ← build_internal_aad_v2_with_epoch packet.flags packet.sequence user_aad candidate
  elim (c.decrypt rx_key packet.nonce packet.ciphertext internal_aad) [
    | some opened ↦ ok (some (candidate, opened))
    | none ↦ try_candidates c rx_key packet user_aad candidates
  ]

-- `.ok_or(Error::Autenticacion)`
abbrev pub or_autenticacion {ℓ} : {A : Type ℓ} → Option A → Result A
or_autenticacion none = err autenticacion
or_autenticacion (some a) = ok a

pub open_v2 : Crypto → CryptoNugget → Packet → (user_aad : List ℕ) → Result (ℕ × List ℕ)
open_v2 c n packet user_aad = do
  opened ← try_candidates c n.rx_key packet user_aad (n.epoch ∷ saturating_add n.epoch 1 ∷ [])
  or_autenticacion opened

pub open_v1 : Crypto → CryptoNugget → Packet → (user_aad : List ℕ) → Result (ℕ × List ℕ)
open_v1 c n packet user_aad = do
  require (length user_aad == 0) autenticacion
  plaintext ←
      or_autenticacion
        (c.decrypt n.rx_key packet.nonce packet.ciphertext (build_internal_aad_v1 packet.sequence))
  ok (n.epoch, plaintext)

-- The plaintext, the epoch that authenticated it and the next counter.
pub open_parts : Crypto → CryptoNugget → Packet → (user_aad : List ℕ) → Result (ℕ × List ℕ × ℕ)
open_parts c n packet user_aad = do
  reject n.requires_resume_ack estado_sin_reanudar
  require (packet.sequence == n.rx_seq) autenticacion
  next_rx_seq ← checked_add n.rx_seq 1 autenticacion
  (authenticated_epoch, plaintext) ←
      if packet.version == wire_version_v2
      then open_v2 c n packet user_aad
      else if packet.version == wire_version_v1
      then open_v1 c n packet user_aad
      else err (version_no_soportada packet.version)
  ok (authenticated_epoch, plaintext, next_rx_seq)

-- What the channel becomes when it has opened a packet.
pub after_open :
    Crypto → CryptoNugget → Packet → (authenticated_epoch next_rx_seq : ℕ) → CryptoNugget
after_open c n packet authenticated_epoch next_rx_seq =
    let hashed : CryptoNugget = record n {
      rx_transcript_hash =
          update_transcript c n.rx_transcript_hash authenticated_epoch packet.sequence packet.nonce
            packet.ciphertext;
    } in
    record (mutar_clave c hashed false) { rx_seq = next_rx_seq; epoch = authenticated_epoch }

pub descifrar_bytes_with_aad :
    Crypto → CryptoNugget → Packet → (user_aad : List ℕ) → Result (List ℕ) × CryptoNugget
descifrar_bytes_with_aad c n packet user_aad = elim (open_parts c n packet user_aad) [
  | ok (epoch, plaintext, next_rx_seq) ↦ (ok plaintext, after_open c n packet epoch next_rx_seq)
  | err e ↦ (err e, n)
  | panic ↦ (panic, n)
]

pub descifrar_bytes :
    Crypto → CryptoNugget → (paquete_base64 : List ℕ) → Result (List ℕ) × CryptoNugget
descifrar_bytes c n paquete_base64 = elim (from_base64 c paquete_base64) [
  | ok packet ↦ descifrar_bytes_with_aad c n packet []
  | err e ↦ (err e, n)
  | panic ↦ (panic, n)
]

-- `descifrar`: the channel has moved on even where the plaintext is no text.
pub descifrar : Crypto → CryptoNugget → (paquete_base64 : List ℕ) → Result (List ℕ) × CryptoNugget
descifrar c n paquete_base64 =
    let (bytes, n') = descifrar_bytes c n paquete_base64 in
    ((do b ← bytes; require (c.is_utf8 b) utf8; ok b), n')

pub transcript_hashes : CryptoNugget → List ℕ × List ℕ
transcript_hashes n = (n.tx_transcript_hash, n.rx_transcript_hash)

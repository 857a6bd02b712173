-- ===== src/Ordered/Snapshot.antt =====
-- The snapshots of the ordered channel, at the head of src/persistence.rs.
pub mod RoundTrip
mod Epochs
mod Resume
mod Tests
use cripto_endevs_comunity.Base.{
  ℕ, ◌+◌, true, false, ◌||◌, Option, some, none, List, [], ◌∷◌, ◌++◌, length, ltb, ◌==◌,
  if◌then◌else◌, codes, list_eq,
}
use cripto_endevs_comunity.Error.{
  Result, ok, err, panic, ◌>>=◌, ◌>>◌, reject, require, cifrado, autenticacion,
  version_no_soportada, paquete_corrupto, aad_demasiado_largo,
}
use cripto_endevs_comunity.Bytes.{be, slice, slice_from, index, read_be, try_u32, checked_add}
use cripto_endevs_comunity.Crypto.{Crypto}
use cripto_endevs_comunity.Packet.{nonce_len}
use cripto_endevs_comunity.Ordered.{CryptoNugget, or_autenticacion}

abbrev pub magic_cnst : List ℕ
magic_cnst = codes "CNST"

abbrev pub snapshot_version_v1 : ℕ
snapshot_version_v1 = 1

abbrev pub snapshot_version_v2 : ℕ
snapshot_version_v2 = 2

abbrev pub min_snapshot_len : ℕ
min_snapshot_len = 33

-- `from_persisted_state`
pub from_persisted_state :
    (tx_key rx_key : List ℕ) (tx_seq rx_seq epoch : ℕ)
    (tx_transcript_hash rx_transcript_hash context : List ℕ)
    → CryptoNugget
from_persisted_state tx_key rx_key tx_seq rx_seq epoch tx_hash rx_hash context = record {
  tx_key = tx_key;
  rx_key = rx_key;
  tx_seq = tx_seq;
  rx_seq = rx_seq;
  epoch = epoch;
  tx_transcript_hash = tx_hash;
  rx_transcript_hash = rx_hash;
  context = context;
  requires_resume_ack = true;
}

unfoldable pub snapshot_aad : (version : ℕ) → (context : List ℕ) → Result (List ℕ)
snapshot_aad version context = do
  ctx_len ← try_u32 (length context) aad_demasiado_largo
  ok (magic_cnst ++ ((version ∷ []) ++ (be 4 ctx_len ++ context)))

pub encode_state_v2 : CryptoNugget → Result (List ℕ)
encode_state_v2 n = do
  ctx_len ← try_u32 (length n.context) aad_demasiado_largo
  ok (
      n.tx_key
      ++ (n.rx_key
          ++ (be 8 n.tx_seq
              ++ (be 8 n.rx_seq
                  ++ (be 8 n.epoch
                      ++ (n.tx_transcript_hash
                          ++ (n.rx_transcript_hash ++ (be 4 ctx_len ++ n.context))))))))

-- The hashes of a state, and the place of the length of its context: version 1 has no hashes.
unfoldable pub decode_hashes : (version : ℕ) → List ℕ → Result (List ℕ × List ℕ × ℕ)
decode_hashes version bytes =
    if version == snapshot_version_v2
    then (do
      tx_hash ← slice 88 120 bytes
      rx_hash ← slice 120 152 bytes
      ok (tx_hash, rx_hash, 152))
    else ok (be 32 0, be 32 0, 88)

unfoldable pub decode_state :
    (version : ℕ) → (bytes expected_context : List ℕ) → Result CryptoNugget
decode_state version bytes expected_context = do
  let fixed_len = if version == snapshot_version_v2 then 156 else 92
  reject (ltb (length bytes) fixed_len) paquete_corrupto
  tx_key ← slice 0 32 bytes
  rx_key ← slice 32 64 bytes
  tx_seq ← read_be 8 64 bytes
  rx_seq ← read_be 8 72 bytes
  epoch ← read_be 8 80 bytes
  (tx_hash, rx_hash, len_offset) ← decode_hashes version bytes
  context_len ← read_be 4 len_offset bytes
  context_end ← checked_add fixed_len context_len paquete_corrupto
  require (context_end == length bytes) paquete_corrupto
  context ← slice fixed_len context_end bytes
  require (list_eq context expected_context) autenticacion
  ok (from_persisted_state tx_key rx_key tx_seq rx_seq epoch tx_hash rx_hash context)

abbrev pub encrypted : Option (List ℕ) → Result (List ℕ)
encrypted none = err cifrado
encrypted (some ciphertext) = ok ciphertext

-- The bytes that `export_state` returns for a channel whose epoch was already moved.
pub seal_state : Crypto → CryptoNugget → (wrap nonce : List ℕ) → Result (List ℕ)
seal_state c n wrap nonce = do
  state ← encode_state_v2 n
  aad ← snapshot_aad snapshot_version_v2 n.context
  ciphertext ← encrypted (c.encrypt wrap nonce state aad)
  ok (magic_cnst ++ ((snapshot_version_v2 ∷ []) ++ (nonce ++ ciphertext)))

-- `export_state`: the epoch of the channel itself moves first, also where the rest fails.
pub export_state : Crypto → CryptoNugget → (wrap nonce : List ℕ) → Result (List ℕ) × CryptoNugget
export_state c n wrap nonce = elim (checked_add n.epoch 1 cifrado) [
  | ok epoch ↦
      let n' : CryptoNugget = record n { epoch = epoch } in (seal_state c n' wrap nonce, n')
  | err e ↦ (err e, n)
  | panic ↦ (panic, n)
]

unfoldable pub import_state : Crypto → (bytes wrap context : List ℕ) → Result CryptoNugget
import_state c bytes wrap context = do
  reject (ltb (length bytes) min_snapshot_len) paquete_corrupto
  magic ← slice 0 4 bytes
  require (list_eq magic magic_cnst) paquete_corrupto
  version ← index 4 bytes
  require (version == snapshot_version_v1 || version == snapshot_version_v2)
      (version_no_soportada version)
  nonce ← slice 5 (5 + nonce_len) bytes
  ciphertext ← slice_from (5 + nonce_len) bytes
  aad ← snapshot_aad version context
  plaintext ← or_autenticacion (c.decrypt wrap nonce ciphertext aad)
  decode_state version plaintext context

pub mark_resumed : CryptoNugget → CryptoNugget
mark_resumed n = record n { requires_resume_ack = false }

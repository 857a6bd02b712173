-- ===== src/Replay.antt =====
-- src/modes/replay.rs: a channel with fixed keys, nonces that mask a counter, and a window against
-- replays.
pub mod Channel
pub mod Nonces
pub mod Delivery
mod Tests
use cripto_endevs_comunity.Base.{
  ℕ, zero, suc, ◌+◌, ◌-◌, ◌*◌, ◌/◌, ◌%◌, ◌^◌, min, Bool, true, false, Option, some, none, List, [],
  ◌∷◌, ◌++◌, length, take, drop, ltb, leb, ◌==◌, ◌||◌, not, if◌then◌else◌, bit_and, bit_or, bit_xor,
  codes, list_eq,
}
use cripto_endevs_comunity.Error.{
  Error, Result, ok, err, panic, ◌>>=◌, ◌>>◌, reject, require, fuera_de_orden, repetido,
  modo_invalido, cifrado, autenticacion, version_no_soportada,
}
use cripto_endevs_comunity.Role.{Role, initiator, responder}
use cripto_endevs_comunity.Bytes.{be, checked_add, xor_bytes}
use cripto_endevs_comunity.Crypto.{Crypto, hkdf}
use cripto_endevs_comunity.Window.{checked_shl}
use cripto_endevs_comunity.Packet.{
  Packet, flag_aad_present, wire_version_v2, build_internal_aad_v2, nonce_len,
}

abbrev pub max_window : ℕ
max_window = 128

pub record ReplayWindowChannel : Type 0 where
  pub tx_key : List ℕ
  pub rx_key : List ℕ
  pub tx_nonce_mask : List ℕ
  pub rx_nonce_mask : List ℕ
  pub tx_seq : ℕ
  pub highest_seen : Option ℕ
  pub seen_bitmap : ℕ
  pub window : ℕ

abbrev pub default_context : List ℕ
default_context = codes "cryptonugget:v1"

-- The new channel of a side, from the keys and masks of the two directions.
pub with_keys : (key_a key_b mask_a mask_b : List ℕ) → ℕ → Role → ReplayWindowChannel
with_keys key_a key_b mask_a mask_b window initiator = record {
  tx_key = key_a;
  rx_key = key_b;
  tx_nonce_mask = mask_a;
  rx_nonce_mask = mask_b;
  tx_seq = 0;
  highest_seen = none;
  seen_bitmap = 0;
  window = window;
}
with_keys key_a key_b mask_a mask_b window responder = record {
  tx_key = key_b;
  rx_key = key_a;
  tx_nonce_mask = mask_b;
  rx_nonce_mask = mask_a;
  tx_seq = 0;
  highest_seen = none;
  seen_bitmap = 0;
  window = window;
}

-- `ReplayWindowChannel::new_with_context`; the seed is its 32 bytes.
unfoldable pub new_with_context :
    Crypto → (seed : List ℕ) → Role → (context : List ℕ) → (window : ℕ) → Result ReplayWindowChannel
unfolding with_keys
new_with_context c seed role context window = do
  reject (window == 0 || ltb max_window window) modo_invalido
  let salt = codes "CryptoNugget:replay-window:v1" ++ (0 ∷ context)
  let key_a = hkdf c salt seed (codes "window-key:a") 32
  let key_b = hkdf c salt seed (codes "window-key:b") 32
  let mask_a = hkdf c salt seed (codes "window-mask:a") nonce_len
  let mask_b = hkdf c salt seed (codes "window-mask:b") nonce_len
  ok (with_keys key_a key_b mask_a mask_b window role)

-- `ReplayWindowChannel::new`
unfoldable pub new : Crypto → (seed : List ℕ) → Role → (window : ℕ) → Result ReplayWindowChannel
unfolding new_with_context
new c seed role window = new_with_context c seed role default_context window

-- `compute_nonce`: the last 8 of the 12 bytes of the mask are xored with the sequence number.
unfoldable pub compute_nonce : (mask : List ℕ) → (seq : ℕ) → List ℕ
compute_nonce mask seq = take 4 mask ++ xor_bytes (drop 4 mask) (be 8 seq)

-- The packet around a ciphertext, and `.map_err(|_| Error::Cifrado)` where encryption failed.
pub sealed : (sequence flags : ℕ) → (nonce : List ℕ) → Option (List ℕ) → Result Packet
sealed sequence flags nonce none = err cifrado
sealed sequence flags nonce (some ciphertext) = ok (record {
  version = wire_version_v2;
  flags = flags;
  node_id = 0;
  epoch = 0;
  sequence = sequence;
  timestamp_ms = 0;
  nonce = nonce;
  ciphertext = ciphertext;
})

-- The packet that `seal` returns and the counter that it sets.
pub seal_packet : Crypto → ReplayWindowChannel → (plaintext aad : List ℕ) → Result (Packet × ℕ)
unfolding sealed checked_add
seal_packet c ch plaintext aad = do
  let sequence = ch.tx_seq
  next_seq ← checked_add ch.tx_seq 1 cifrado
  let flags = if length aad == 0 then 0 else flag_aad_present
  internal_aad ← build_internal_aad_v2 flags sequence aad
  let nonce = compute_nonce ch.tx_nonce_mask sequence
  packet ← sealed sequence flags nonce (c.encrypt ch.tx_key nonce plaintext internal_aad)
  ok (packet, next_seq)

-- `ReplayWindowChannel::seal`: the counter moves only when a packet is returned.
unfoldable pub seal :
    Crypto → ReplayWindowChannel → (plaintext aad : List ℕ) → Result Packet × ReplayWindowChannel
unfolding seal_packet
seal c ch plaintext aad = elim (seal_packet c ch plaintext aad) [
  | ok (packet, next_seq) ↦ (ok packet, record ch { tx_seq = next_seq })
  | err e ↦ (err e, ch)
  | panic ↦ (panic, ch)
]

-- `ensure_sequence_is_new`, and once `highest_seen` is `Some(highest)`.
pub ensure_against : ReplayWindowChannel → ℕ → ℕ → Result (Unit {0})
ensure_against ch highest sequence = if ltb highest sequence then ok tt else (do
  let delta = highest - sequence
  reject (leb ch.window delta) fuera_de_orden
  place ← checked_shl delta
  reject (not (bit_and ch.seen_bitmap place == 0)) repetido)

pub ensure_sequence_is_new : ReplayWindowChannel → ℕ → Result (Unit {0})
unfolding ensure_against
ensure_sequence_is_new ch sequence = elim ch.highest_seen [
  | none ↦ ok tt
  | some highest ↦ ensure_against ch highest sequence
]

-- `mark_seen`, and once `highest_seen` is `Some(highest)`.
pub mark_against : ReplayWindowChannel → ℕ → ℕ → ReplayWindowChannel
mark_against ch highest sequence =
    if ltb highest sequence
    then (let shift = sequence - highest in
        let bitmap = if leb 128 shift then 1 else bit_or (ch.seen_bitmap * 2 ^ shift % 2 ^ 128) 1 in
        let mask = if ch.window == 128 then 2 ^ 128 - 1 else 2 ^ ch.window - 1 in
        record ch { highest_seen = some sequence; seen_bitmap = bit_and bitmap mask })
    else record ch { seen_bitmap = bit_or ch.seen_bitmap (2 ^ (highest - sequence)) }

pub mark_seen : ReplayWindowChannel → ℕ → ReplayWindowChannel
unfolding mark_against
mark_seen ch sequence = elim ch.highest_seen [
  | none ↦ record ch { highest_seen = some sequence; seen_bitmap = 1 }
  | some highest ↦ mark_against ch highest sequence
]

-- `.map_err(|_| Error::Autenticacion)` on a decryption.
abbrev pub opened : Option (List ℕ) → Result (List ℕ)
opened none = err autenticacion
opened (some plaintext) = ok plaintext

-- `ReplayWindowChannel::open`: the plaintext, or the error that the channel is left unchanged with.
unfoldable pub open_plaintext :
    Crypto → ReplayWindowChannel → Packet → (aad : List ℕ) → Result (List ℕ)
open_plaintext c ch packet aad = do
  require (packet.version == wire_version_v2) (version_no_soportada packet.version)
  ensure_sequence_is_new ch packet.sequence
  let expected_nonce = compute_nonce ch.rx_nonce_mask packet.sequence
  require (list_eq packet.nonce expected_nonce) autenticacion
  internal_aad ← build_internal_aad_v2 packet.flags packet.sequence aad
  opened (c.decrypt ch.rx_key packet.nonce packet.ciphertext internal_aad)

unfoldable pub open_packet :
    Crypto → ReplayWindowChannel → Packet → (aad : List ℕ) → Result (List ℕ) × ReplayWindowChannel
unfolding open_plaintext
open_packet c ch packet aad = elim (open_plaintext c ch packet aad) [
  | ok plaintext ↦ (ok plaintext, mark_seen ch packet.sequence)
  | err e ↦ (err e, ch)
  | panic ↦ (panic, ch)
]

-- `u128::count_ones`, over the lowest `n` places.
pub count_ones : ℕ → ℕ → ℕ
count_ones zero bitmap = 0
count_ones (suc n) bitmap = bitmap % 2 + count_ones n (bitmap / 2)

-- `missing_in_window_count`: a build with overflow checks panics in `highest + 1` at the largest `u64`.
unfoldable pub missing_in_window_count : ReplayWindowChannel → Result ℕ
unfolding count_ones
missing_in_window_count ch = elim ch.highest_seen [
  | none ↦ ok 0
  | some highest ↦
      if ltb (highest + 1) (2 ^ 64)
      then ok (min (highest + 1) ch.window - count_ones 128 ch.seen_bitmap)
      else panic
]

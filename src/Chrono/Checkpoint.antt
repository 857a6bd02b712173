-- ===== src/Chrono/Checkpoint.antt =====
-- `export_checkpoint` and `restore_checkpoint` of src/modes/chrono.rs.
pub mod PeerBytes
pub mod RoundTrip
mod Tests
use cripto_endevs_comunity.Base.{
  ℕ, zero, suc, ◌+◌, ◌-◌, ◌*◌, ◌^◌, Option, some, none, List, [], ◌∷◌, ◌++◌, length, ltb, ◌==◌, not,
  if◌then◌else◌, codes, list_eq, max,
}
use cripto_endevs_comunity.Error.{
  Result, ok, err, panic, ◌>>=◌, ◌>>◌, reject, require, autenticacion, paquete_corrupto,
  aad_demasiado_largo,
}
use cripto_endevs_comunity.Bytes.{
  be, slice, slice_from, index, read_be, try_u32, saturating_add, checked_add,
}
use cripto_endevs_comunity.Crypto.{Crypto}
use cripto_endevs_comunity.Chrono.{ChronoMeshNode, encrypted, decrypted}
use cripto_endevs_comunity.Chrono.Peers.{PeerEntry, PeerMap, insert}

abbrev pub mesh_state_magic : List ℕ
mesh_state_magic = codes "CNMS"

abbrev pub mesh_state_version : ℕ
mesh_state_version = 1

-- `state.highest_seen.unwrap_or(u64::MAX)`, and how it is read back.
abbrev pub highest_raw : Option ℕ → ℕ
highest_raw none = 2 ^ 64 - 1
highest_raw (some highest) = highest

abbrev pub highest_of_raw : ℕ → Option ℕ
highest_of_raw raw = if raw == 2 ^ 64 - 1 then none else some raw

-- The 36 bytes of a peer, and the loop over the map.
unfoldable pub peer_bytes : PeerEntry → List ℕ
peer_bytes e =
    be 4 e.node
    ++ (be 8 e.epoch ++ (be 8 (highest_raw e.state.highest_seen) ++ be 16 e.state.seen_bitmap))

unfoldable pub peers_bytes : PeerMap → List ℕ
unfolding peer_bytes
peers_bytes [] = []
peers_bytes (e ∷ m) = peer_bytes e ++ peers_bytes m

-- The state before encryption.
unfoldable pub raw_state : ChronoMeshNode → (peer_count : ℕ) → List ℕ
unfolding peers_bytes
raw_state n peer_count =
    be 4 n.node_id
    ++ (be 8 n.epoch
        ++ (be 8 n.tx_seq
            ++ (n.multiset_integrity_hash ++ (be 4 peer_count ++ peers_bytes n.peers))))

unfoldable pub checkpoint_aad : ChronoMeshNode → List ℕ
checkpoint_aad n = mesh_state_magic ++ (mesh_state_version ∷ n.context_domain_hash)

-- `export_checkpoint`; the nonce is what `OsRng` draws.
unfoldable pub export_checkpoint :
    Crypto → ChronoMeshNode → (wrap_key nonce : List ℕ) → Result (List ℕ)
unfolding raw_state checkpoint_aad
export_checkpoint c n wrap_key nonce = do
  peer_count ← try_u32 (length n.peers) aad_demasiado_largo
  ciphertext ← encrypted (c.encrypt wrap_key nonce (raw_state n peer_count) (checkpoint_aad n))
  ok (mesh_state_magic ++ ((mesh_state_version ∷ []) ++ (nonce ++ ciphertext)))

-- One round of the loop of `restore_checkpoint`, and the loop for the rounds left.
unfoldable pub read_peer : ℕ → List ℕ → Result PeerEntry
read_peer offset raw = do
  node ← read_be 4 offset raw
  epoch ← read_be 8 (offset + 4) raw
  highest ← read_be 8 (offset + 12) raw
  bitmap ← read_be 16 (offset + 20) raw
  ok (record {
    node = node;
    epoch = epoch;
    state = record {
      highest_seen = highest_of_raw highest;
      seen_bitmap = bitmap;
      received_count = 0;
    };
  })

unfoldable pub read_peers : (rounds offset : ℕ) → List ℕ → PeerMap → Result PeerMap
unfolding read_peer
read_peers zero offset raw peers = ok peers
read_peers (suc rounds) offset raw peers = do
  e ← read_peer offset raw
  read_peers rounds (offset + 36) raw (insert e.node e.epoch e.state peers)

-- What `restore_checkpoint` reads from the decrypted state.
pub record Restored : Type 0 where
  pub epoch : ℕ
  pub tx_seq : ℕ
  pub multiset_hash : List ℕ
  pub peers : PeerMap

unfoldable pub decode_raw : ChronoMeshNode → List ℕ → Result Restored
unfolding read_peers
decode_raw n raw = do
  reject (ltb (length raw) 56) paquete_corrupto
  saved_node_id ← read_be 4 0 raw
  require (saved_node_id == n.node_id) autenticacion
  saved_epoch ← read_be 8 4 raw
  saved_tx_seq ← read_be 8 12 raw
  multiset_hash ← slice 20 52 raw
  peer_count ← read_be 4 52 raw
  reject (not (ltb (peer_count * 36) (2 ^ 64))) paquete_corrupto
  expected_len ← checked_add 56 (peer_count * 36) paquete_corrupto
  require (length raw == expected_len) paquete_corrupto
  peers ← read_peers peer_count 56 raw []
  ok (record {
    epoch = saved_epoch;
    tx_seq = saved_tx_seq;
    multiset_hash = multiset_hash;
    peers = peers;
  })

-- The header, the decryption and the decoding; the test of the magic is skipped on short bytes.
unfoldable pub decode_checkpoint :
    Crypto → ChronoMeshNode → (bytes wrap_key : List ℕ) → Result Restored
unfolding decode_raw checkpoint_aad
decode_checkpoint c n bytes wrap_key = do
  reject (ltb (length bytes) 33) paquete_corrupto
  magic ← slice 0 4 bytes
  require (list_eq magic mesh_state_magic) paquete_corrupto
  version ← index 4 bytes
  require (version == mesh_state_version) paquete_corrupto
  nonce ← slice 5 17 bytes
  ciphertext ← slice_from 17 bytes
  raw ← decrypted (c.decrypt wrap_key nonce ciphertext (checkpoint_aad n))
  decode_raw n raw

-- `restore_checkpoint`: the node changes only if all was read. The epoch is the larger of its own
-- and the one after the saved epoch, the counter the saved one.
unfoldable pub restore_checkpoint :
    Crypto → ChronoMeshNode → (bytes wrap_key : List ℕ) → Result (Unit {0}) × ChronoMeshNode
unfolding decode_checkpoint saturating_add
restore_checkpoint c n bytes wrap_key = elim (decode_checkpoint c n bytes wrap_key) [
  | ok r ↦ (
    ok tt,
    record n {
      epoch = max n.epoch (saturating_add r.epoch 1);
      tx_seq = r.tx_seq;
      peers = r.peers;
      multiset_integrity_hash = r.multiset_hash;
    },
  )
  | err e ↦ (err e, n)
  | panic ↦ (panic, n)
]

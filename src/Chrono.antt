-- ===== src/Chrono.antt =====
-- src/modes/chrono.rs: a node of the mesh. Its atomics and what its mutex guards are fields of one
-- record, and an operation that takes `&self` returns the record that it leaves. A mutex is never
-- poisoned here: the code that holds it does not panic.
pub mod Peers
pub mod Checkpoint
pub mod Mesh
pub mod Threads
mod Counter
pub mod Repeat
pub mod Ranges
pub mod Integrity
mod Tests
use cripto_endevs_comunity.Base.{
  ℕ, ◌+◌, ◌-◌, ◌%◌, ◌^◌, Bool, Option, some, none, List, [], ◌∷◌, ◌++◌, length, take, drop, ltb,
  leb, ◌==◌, if◌then◌else◌, codes, list_eq, max,
}
use cripto_endevs_comunity.Error.{
  Error, Result, ok, err, panic, ◌>>=◌, ◌>>◌, reject, require, cifrado, autenticacion,
  version_no_soportada, tiempo_expirado_o_invalido, integridad_contexto_corrupta,
}
use cripto_endevs_comunity.Bytes.{be, xor_bytes, diff_bytes}
use cripto_endevs_comunity.Crypto.{Crypto, hkdf}
use cripto_endevs_comunity.Packet.{
  Packet, flag_aad_present, wire_version_v3, build_internal_aad_v3, nonce_len, tag_len,
}
use cripto_endevs_comunity.Window.{PeerReplayState, default, check, record_seq, max_window}
use cripto_endevs_comunity.Chrono.Peers.{PeerMap, get, insert}

pub record ChronoMeshNode : Type 0 where
  pub mesh_root_key : List ℕ
  pub context_domain_hash : List ℕ
  pub packet_prk : List ℕ
  pub node_id : ℕ
  pub epoch : ℕ
  pub tx_seq : ℕ
  pub max_time_drift_ms : ℕ
  pub replay_window : ℕ
  pub peers : PeerMap
  pub multiset_integrity_hash : List ℕ

-- `[0u8; 32]`
abbrev pub zeros_32 : List ℕ
zeros_32 = be 32 0

-- `ChronoMeshNode::new`; the seed is its 32 bytes.
unfoldable pub new :
    Crypto → (seed context : List ℕ) → (node_id boot_epoch max_time_drift_ms : ℕ) → ChronoMeshNode
new c seed context node_id boot_epoch max_time_drift_ms =
    let salt : List ℕ = codes "CryptoNugget:ChronoMesh:v3:" ++ context in
    let mesh_root_key : List ℕ = hkdf c salt seed (codes "mesh-root-key") 32 in
    let context_domain_hash : List ℕ = hkdf c salt seed (codes "mesh-context-hash") 32 in
    record {
      mesh_root_key = mesh_root_key;
      context_domain_hash = context_domain_hash;
      packet_prk = c.extract context_domain_hash mesh_root_key;
      node_id = node_id;
      epoch = boot_epoch;
      tx_seq = 0;
      max_time_drift_ms = max_time_drift_ms;
      replay_window = max_window;
      peers = [];
      multiset_integrity_hash = zeros_32;
    }

-- The 44 bytes that `derive_packet_crypto` splits into a key and a nonce.
unfoldable pub packet_okm : Crypto → ChronoMeshNode → (node_id epoch seq timestamp_ms : ℕ) → List ℕ
packet_okm c n node_id epoch seq timestamp_ms =
    c.expand n.packet_prk (be 4 node_id ++ (be 8 epoch ++ (be 8 seq ++ be 8 timestamp_ms))) 44

unfoldable pub derive_packet_crypto :
    Crypto → ChronoMeshNode → (node_id epoch seq timestamp_ms : ℕ) → List ℕ × List ℕ
unfolding packet_okm
derive_packet_crypto c n node_id epoch seq timestamp_ms =
    let okm = packet_okm c n node_id epoch seq timestamp_ms in (take 32 okm, drop 32 okm)

-- What `fold_packet_into_integrity_hash` hashes of a packet.
unfoldable pub packet_digest : Crypto → Packet → List ℕ
packet_digest c p = c.sha256 (
    codes "ChronoMesh:PacketDigest:v3"
    ++ (be 4 p.node_id
        ++ (be 8 p.epoch
            ++ (be 8 p.sequence
                ++ (be 8 p.timestamp_ms
                    ++ (p.nonce ++ drop (length p.ciphertext - tag_len) p.ciphertext))))))

unfoldable pub fold_packet_into_integrity_hash : Crypto → List ℕ → Packet → List ℕ
unfolding packet_digest
fold_packet_into_integrity_hash c acc p = xor_bytes acc (packet_digest c p)

-- `.map_err(|_| Error::Cifrado)` on an encryption, `.map_err(|_| Error::Autenticacion)` on a decryption.
abbrev pub encrypted : Option (List ℕ) → Result (List ℕ)
encrypted none = err cifrado
encrypted (some ciphertext) = ok ciphertext

abbrev pub decrypted : Option (List ℕ) → Result (List ℕ)
decrypted none = err autenticacion
decrypted (some plaintext) = ok plaintext

-- The fallible part of `seal_realtime`, after the sequence number was drawn.
unfoldable pub seal_packet :
    Crypto
    → ChronoMeshNode
    → (seq : ℕ) → (plaintext user_aad : List ℕ) → (now_ms : ℕ) → Result Packet
seal_packet c n seq plaintext user_aad now_ms = do
  reject (seq == 2 ^ 64 - 1) cifrado
  let flags = if length user_aad == 0 then 0 else flag_aad_present
  internal_aad ←
      build_internal_aad_v3 flags n.node_id n.epoch seq now_ms n.context_domain_hash user_aad
  let (msg_key, nonce) = derive_packet_crypto c n n.node_id n.epoch seq now_ms
  ciphertext ← encrypted (c.encrypt msg_key nonce plaintext internal_aad)
  ok (record {
    version = wire_version_v3;
    flags = flags;
    node_id = n.node_id;
    epoch = n.epoch;
    sequence = seq;
    timestamp_ms = now_ms;
    nonce = nonce;
    ciphertext = ciphertext;
  })

-- `self.tx_seq.fetch_add(1)`: the counter wraps, whatever happens to the number that was drawn.
unfoldable pub draw_sequence : ChronoMeshNode → ChronoMeshNode
draw_sequence n = record n { tx_seq = (n.tx_seq + 1) % 2 ^ 64 }

-- The packet added to the integrity hash, under the lock.
unfoldable pub note_packet : Crypto → ChronoMeshNode → Packet → ChronoMeshNode
note_packet c n packet = record n {
  multiset_integrity_hash = fold_packet_into_integrity_hash c n.multiset_integrity_hash packet;
}

unfoldable pub seal_realtime :
    Crypto
    → ChronoMeshNode
    → (plaintext user_aad : List ℕ) → (now_ms : ℕ) → Result Packet × ChronoMeshNode
unfolding seal_packet draw_sequence note_packet
seal_realtime c n plaintext user_aad now_ms =
    elim (seal_packet c n n.tx_seq plaintext user_aad now_ms) [
      | ok packet ↦ (ok packet, note_packet c (draw_sequence n) packet)
      | err e ↦ (err e, draw_sequence n)
      | panic ↦ (panic, draw_sequence n)
    ]

-- `now_ms.abs_diff(timestamp_ms)`
abbrev pub abs_diff : ℕ → ℕ → ℕ
abs_diff a b = if ltb a b then b - a else a - b

-- The first look at the window in `open_realtime`: a peer not seen yet passes.
abbrev pub precheck : Option PeerReplayState → ℕ → ℕ → Result (Unit {0})
precheck none seq window = ok tt
precheck (some peer) seq window = check peer seq window

-- The decryption that `open_realtime` and `open_persisted_record` share word for word.
unfoldable pub open_persisted_record :
    Crypto → ChronoMeshNode → Packet → (user_aad : List ℕ) → Result (List ℕ)
open_persisted_record c n packet user_aad = do
  require (packet.version == wire_version_v3) (version_no_soportada packet.version)
  internal_aad ←
      build_internal_aad_v3 packet.flags packet.node_id packet.epoch packet.sequence
        packet.timestamp_ms n.context_domain_hash user_aad
  let (msg_key, expected_nonce) =
      derive_packet_crypto c n packet.node_id packet.epoch packet.sequence packet.timestamp_ms
  require (list_eq expected_nonce packet.nonce) autenticacion
  decrypted (c.decrypt msg_key packet.nonce packet.ciphertext internal_aad)

-- `open_realtime` up to the decryption: it reads the node and does not change it.
unfoldable pub open_verify :
    Crypto → ChronoMeshNode → Packet → (user_aad : List ℕ) → (now_ms : ℕ) → Result (List ℕ)
open_verify c n packet user_aad now_ms = do
  require (packet.version == wire_version_v3) (version_no_soportada packet.version)
  reject (ltb n.max_time_drift_ms (abs_diff now_ms packet.timestamp_ms)) tiempo_expirado_o_invalido
  precheck (get packet.node_id packet.epoch n.peers) packet.sequence n.replay_window
  internal_aad ←
      build_internal_aad_v3 packet.flags packet.node_id packet.epoch packet.sequence
        packet.timestamp_ms n.context_domain_hash user_aad
  let (msg_key, expected_nonce) =
      derive_packet_crypto c n packet.node_id packet.epoch packet.sequence packet.timestamp_ms
  require (list_eq expected_nonce packet.nonce) autenticacion
  decrypted (c.decrypt msg_key packet.nonce packet.ciphertext internal_aad)

-- `entry(..).or_default()`
abbrev pub or_default : Option PeerReplayState → PeerReplayState
or_default none = default
or_default (some peer) = peer

-- The end of `open_realtime`, under the lock: the window is checked again, and the packet recorded.
unfoldable pub open_commit : Crypto → ChronoMeshNode → Packet → Result (Unit {0}) × ChronoMeshNode
open_commit c n packet =
    let peer : PeerReplayState = or_default (get packet.node_id packet.epoch n.peers) in
    elim (check peer packet.sequence n.replay_window) [
      | ok _ ↦ (
        ok tt,
        record n {
          peers =
              insert packet.node_id packet.epoch (record_seq peer packet.sequence n.replay_window)
                n.peers;
          multiset_integrity_hash =
              fold_packet_into_integrity_hash c n.multiset_integrity_hash packet;
        },
      )
      | err e ↦ (err e, record n { peers = insert packet.node_id packet.epoch peer n.peers })
      | panic ↦ (panic, n)
    ]

unfoldable pub open_realtime :
    Crypto
    → ChronoMeshNode
    → Packet
    → (user_aad : List ℕ) → (now_ms : ℕ) → Result (List ℕ) × ChronoMeshNode
unfolding open_verify open_commit
open_realtime c n packet user_aad now_ms = elim (open_verify c n packet user_aad now_ms) [
  | ok plaintext ↦ let (result, n') = open_commit c n packet in ((do result; ok plaintext), n')
  | err e ↦ (err e, n)
  | panic ↦ (panic, n)
]

unfoldable pub current_integrity_sha256 : ChronoMeshNode → List ℕ
current_integrity_sha256 n = n.multiset_integrity_hash

unfoldable pub verify_integrity_checkpoint :
    ChronoMeshNode → (expected : List ℕ) → Result (Unit {0})
unfolding current_integrity_sha256
verify_integrity_checkpoint n expected =
    require (diff_bytes 0 (current_integrity_sha256 n) expected == 0) integridad_contexto_corrupta

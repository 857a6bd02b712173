-- ===== src/Chrono/Mesh.antt =====
-- Packets between the nodes of a mesh.
use cripto_endevs_comunity.Base.{
  ℕ, ◌≤◌, ◌≡◌, refl, sym, ap, ◌∙◌, subst, true, false, Option, some, none, List, length, arith, ltb,
  ◌==◌, inl, inr, Option-cases, if◌then◌else◌, list_eq_refl, le→ltb,
}
use cripto_endevs_comunity.Error.{ok, Result-cases}
use cripto_endevs_comunity.Crypto.{Crypto, IsLawful}
use cripto_endevs_comunity.Packet.{Packet, build_internal_aad_v3}
use cripto_endevs_comunity.Window.{PeerReplayState, check, record_seq}
use cripto_endevs_comunity.Chrono.Peers.{get, insert}
use cripto_endevs_comunity.Chrono.{
  ChronoMeshNode, new, packet_okm, derive_packet_crypto, seal_packet, seal_realtime, abs_diff,
  precheck, open_verify, open_commit, open_realtime, or_default, fold_packet_into_integrity_hash,
  open_persisted_record,
}

-- Nodes with the same seed and context: they derive the same keys for every packet.
pub record SameMesh (a b : ChronoMeshNode) : Type 0 where
  pub prk : a.packet_prk ≡ b.packet_prk
  pub context : a.context_domain_hash ≡ b.context_domain_hash

pub new-SameMesh :
    (c : Crypto) (seed context : List ℕ) (node_id node_id' epoch epoch' drift drift' : ℕ)
    → SameMesh (new c seed context node_id epoch drift) (new c seed context node_id' epoch' drift')
unfolding new
new-SameMesh c seed context node_id node_id' epoch epoch' drift drift' = record {
  prk = refl;
  context = refl;
}

derive_packet_crypto-SameMesh :
    (c : Crypto) (a b : ChronoMeshNode) (node_id epoch seq timestamp_ms : ℕ)
    → SameMesh a b
    → derive_packet_crypto c a node_id epoch seq timestamp_ms
      ≡ derive_packet_crypto c b node_id epoch seq timestamp_ms
unfolding derive_packet_crypto packet_okm
derive_packet_crypto-SameMesh c a b node_id epoch seq timestamp_ms s = rw s.prk refl

-- A packet that was sealed, with all that it was made of.
pub record SealedAs (c : Crypto) (a : ChronoMeshNode) (plaintext aad : List ℕ) (now_ms : ℕ)
    (p : Packet) : Type 0 where
  pub version : p.version ≡ 3
  pub node_id : p.node_id ≡ a.node_id
  pub epoch : p.epoch ≡ a.epoch
  pub sequence : p.sequence ≡ a.tx_seq
  pub timestamp_ms : p.timestamp_ms ≡ now_ms
  pub internal_aad : List ℕ
  pub same_aad :
      build_internal_aad_v3 p.flags p.node_id p.epoch p.sequence p.timestamp_ms
        a.context_domain_hash aad
      ≡ ok internal_aad
  pub msg_key : List ℕ
  pub derived :
      derive_packet_crypto c a p.node_id p.epoch p.sequence p.timestamp_ms ≡ (msg_key, p.nonce)
  pub encrypts : c.encrypt msg_key p.nonce plaintext internal_aad ≡ some p.ciphertext

module _ (c : Crypto) (a : ChronoMeshNode) (plaintext aad : List ℕ) (now_ms : ℕ) where
  seal_packet-SealedAs :
      {p : Packet}
      → seal_packet c a a.tx_seq plaintext aad now_ms ≡ ok p
      → SealedAs c a plaintext aad now_ms p
  unfolding seal_packet
  seal_packet-SealedAs {p} h =
      let flags : ℕ = if length aad == 0 then 0 else 1 in
      let okm : List ℕ × List ℕ = derive_packet_crypto c a a.node_id a.epoch a.tx_seq now_ms in
      elim (Result-cases
        (build_internal_aad_v3 flags a.node_id a.epoch a.tx_seq now_ms a.context_domain_hash aad)) [
          | inl (internal, e) ↦ elim (Option-cases (c.encrypt okm.0 okm.1 plaintext internal)) [
            | inl failed ↦ absurd (ground arith)
            | inr (ct, done) ↦ record {
              version = ground arith;
              node_id = ground arith;
              epoch = ground arith;
              sequence = ground arith;
              timestamp_ms = ground arith;
              internal_aad = internal;
              same_aad = ground arith;
              msg_key = okm.0;
              derived = ground arith;
              encrypts = ground arith;
            }
          ]
          | inr other ↦ absurd (ground arith)
        ]

pub seal_realtime-SealedAs :
    (c : Crypto) (a : ChronoMeshNode) (plaintext aad : List ℕ) (now_ms : ℕ) {p : Packet}
    → (seal_realtime c a plaintext aad now_ms).0 ≡ ok p
    → SealedAs c a plaintext aad now_ms p
unfolding seal_realtime
seal_realtime-SealedAs c a plaintext aad now_ms {p} h =
    elim (Result-cases (seal_packet c a a.tx_seq plaintext aad now_ms)) [
      | inl (q, e) ↦
          let same : q ≡ p = ground arith in
          subst (SealedAs c a plaintext aad now_ms) same
            (seal_packet-SealedAs c a plaintext aad now_ms e)
      | inr other ↦ absurd (ground arith)
    ]

-- What `open_realtime` checks of the time and the window, for a packet of a peer.
pub record IsTimely (b : ChronoMeshNode) (p : Packet) (now_ms : ℕ) : Type 0 where
  pub drift : abs_diff now_ms p.timestamp_ms ≤ b.max_time_drift_ms
  pub unseen : check (or_default (get p.node_id p.epoch b.peers)) p.sequence b.replay_window ≡ ok tt

open_commit-ok :
    (c : Crypto) (b : ChronoMeshNode) (p : Packet)
    → check (or_default (get p.node_id p.epoch b.peers)) p.sequence b.replay_window ≡ ok tt
    → (open_commit c b p).1 ≡ record b {
      peers =
          insert p.node_id p.epoch
            (record_seq (or_default (get p.node_id p.epoch b.peers)) p.sequence b.replay_window)
            b.peers;
      multiset_integrity_hash = fold_packet_into_integrity_hash c b.multiset_integrity_hash p;
    }
unfolding open_commit
open_commit-ok c b p h = rw (h, open_commit) refl

precheck-check :
    (entry : Option PeerReplayState) (seq window : ℕ)
    → check (or_default entry) seq window ≡ ok tt
    → precheck entry seq window ≡ ok tt
precheck-check none seq window h = refl
precheck-check (some state) seq window h = h

module _ (c : Crypto) (lawful : IsLawful c) (a b : ChronoMeshNode) (plaintext aad : List ℕ)
    (sealed_ms : ℕ) (p : Packet) (mesh : SameMesh a b)
    (s : SealedAs c a plaintext aad sealed_ms p) where
  same_aad-at :
      build_internal_aad_v3 p.flags p.node_id p.epoch p.sequence p.timestamp_ms
        b.context_domain_hash aad
      ≡ ok s.internal_aad
  same_aad-at = rw (← mesh.context) s.same_aad

  derived-at :
      derive_packet_crypto c b p.node_id p.epoch p.sequence p.timestamp_ms ≡ (s.msg_key, p.nonce)
  derived-at =
      sym (derive_packet_crypto-SameMesh c a b p.node_id p.epoch p.sequence p.timestamp_ms mesh)
      ∙ s.derived

  decrypts : c.decrypt s.msg_key p.nonce p.ciphertext s.internal_aad ≡ some plaintext
  decrypts =
      lawful.decrypt-encrypt s.msg_key p.nonce plaintext s.internal_aad p.ciphertext s.encrypts

  pub open_persisted_record-SealedAs : open_persisted_record c b p aad ≡ ok plaintext
  unfolding open_persisted_record
  open_persisted_record-SealedAs =
      let version : (p.version == 3) ≡ true = rw s.version refl in
      rw (version, same_aad-at, derived-at, list_eq_refl p.nonce, decrypts) refl

  open_verify-SealedAs :
      (now_ms : ℕ) → IsTimely b p now_ms → open_verify c b p aad now_ms ≡ ok plaintext
  unfolding open_verify
  open_verify-SealedAs now_ms timely =
      let version : (p.version == 3) ≡ true = rw s.version refl in
      let drift : ltb b.max_time_drift_ms (abs_diff now_ms p.timestamp_ms) ≡ false =
        le→ltb _ _ timely.drift in
      rw
        (
          version,
          drift,
          precheck-check (get p.node_id p.epoch b.peers) p.sequence b.replay_window timely.unseen,
          same_aad-at,
          derived-at,
          list_eq_refl p.nonce,
          decrypts,
        )
        refl

  open_realtime-SealedAs :
      (now_ms : ℕ)
      → IsTimely b p now_ms
      → open_realtime c b p aad now_ms ≡ (ok plaintext, (open_commit c b p).1)
  unfolding open_realtime
  open_realtime-SealedAs now_ms timely =
      let commits : (open_commit c b p).0 ≡ ok tt =
        unfold open_commit in rw (timely.unseen, open_commit) refl in
      rw (open_realtime, open_verify-SealedAs now_ms timely, commits) refl

-- What a node sealed, a node of the same mesh opens with the same associated data, if the packet is
-- timely there and its sequence number is new. It gets the plaintext, and what it keeps are the
-- recorded number and the new integrity hash.
pub open_realtime-seal_realtime :
    (c : Crypto) (a b : ChronoMeshNode) (plaintext aad : List ℕ) (sealed_ms now_ms : ℕ) (p : Packet)
    → IsLawful c
    → SameMesh a b
    → (seal_realtime c a plaintext aad sealed_ms).0 ≡ ok p
    → IsTimely b p now_ms
    → open_realtime c b p aad now_ms ≡ (
      ok plaintext,
      record b {
        peers =
            insert p.node_id p.epoch
              (record_seq (or_default (get p.node_id p.epoch b.peers)) p.sequence b.replay_window)
              b.peers;
        multiset_integrity_hash = fold_packet_into_integrity_hash c b.multiset_integrity_hash p;
      },
    )
open_realtime-seal_realtime c a b plaintext aad sealed_ms now_ms p lawful mesh h timely =
    open_realtime-SealedAs c lawful a b plaintext aad sealed_ms p mesh
      (seal_realtime-SealedAs c a plaintext aad sealed_ms h) now_ms timely
    ∙ ap (λ n. (ok plaintext, n)) (open_commit-ok c b p timely.unseen)

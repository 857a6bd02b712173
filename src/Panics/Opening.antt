-- ===== src/Panics/Opening.antt =====
-- What opening runs: of a packet or a record on a node, and of a packet on a channel.
use cripto_endevs_comunity.Base.{
  ℕ, ◌≢◌, ◌≤◌, List, length, ltb, ◌==◌, Option, none, some, inl, inr, list_eq,
}
use cripto_endevs_comunity.Error.{panic, Result-cases, autenticacion}
use cripto_endevs_comunity.Crypto.{Crypto}
use cripto_endevs_comunity.Packet.{
  Packet, build_internal_aad_v2, build_internal_aad_v2_with_epoch, wire_version_v2,
  build_internal_aad_v3, wire_version_v3,
}
use cripto_endevs_comunity.Window.{PeerReplayState, check, check-ne-panic}
use cripto_endevs_comunity.Chrono.{
  ChronoMeshNode, open_verify, open_commit, open_realtime, open_persisted_record, encrypted,
  decrypted, derive_packet_crypto, abs_diff, precheck, or_default,
}
use cripto_endevs_comunity.Chrono.Peers.{get}
use cripto_endevs_comunity.Replay.{
  ReplayWindowChannel, open_packet, open_plaintext, ensure_sequence_is_new, compute_nonce, opened,
}
use cripto_endevs_comunity.Replay.Delivery.{as_peer, ensure-check}
use cripto_endevs_comunity.Panics.{
  bind-ne-panic, ok-ne-panic, err-ne-panic, reject-ne-panic, require-ne-panic, try_u32-ne-panic,
  or_error-ne-panic,
}

build_internal_aad_v3-ne-panic :
    (flags node_id epoch sequence timestamp_ms : ℕ) (context_hash aad : List ℕ)
    → build_internal_aad_v3 flags node_id epoch sequence timestamp_ms context_hash aad ≢ panic
unfolding build_internal_aad_v3
build_internal_aad_v3-ne-panic flags node_id epoch sequence timestamp_ms context_hash aad =
    try_u32-ne-panic (length aad) _ _ ok-ne-panic

encrypted-ne-panic : (o : Option (List ℕ)) → encrypted o ≢ panic
encrypted-ne-panic o = or_error-ne-panic o encrypted err-ne-panic (λ ciphertext. ok-ne-panic)

decrypted-ne-panic : (o : Option (List ℕ)) → decrypted o ≢ panic
decrypted-ne-panic o = or_error-ne-panic o decrypted err-ne-panic (λ plaintext. ok-ne-panic)

precheck-ne-panic :
    (s : Option PeerReplayState) (seq window : ℕ) → window ≤ 128 → precheck s seq window ≢ panic
precheck-ne-panic none seq window w = ok-ne-panic
precheck-ne-panic (some s) seq window w = check-ne-panic s seq window w

module _ (c : Crypto) (n : ChronoMeshNode) where
  pub open_persisted_record-ne-panic :
      (p : Packet) (aad : List ℕ) → open_persisted_record c n p aad ≢ panic
  unfolding open_persisted_record
  open_persisted_record-ne-panic p aad =
      require-ne-panic (p.version == wire_version_v3) _ _ (λ known.
        bind-ne-panic _
          (build_internal_aad_v3-ne-panic p.flags p.node_id p.epoch p.sequence p.timestamp_ms
            n.context_domain_hash aad)
          (λ internal made.
            let crypto = derive_packet_crypto c n p.node_id p.epoch p.sequence p.timestamp_ms in
            require-ne-panic (list_eq crypto.1 p.nonce) autenticacion
              (decrypted (c.decrypt crypto.0 p.nonce p.ciphertext internal))
              (λ same. decrypted-ne-panic (c.decrypt crypto.0 p.nonce p.ciphertext internal))))

module _ (c : Crypto) (n : ChronoMeshNode) (window : n.replay_window ≤ 128) where
  open_verify-ne-panic :
      (p : Packet) (aad : List ℕ) (now_ms : ℕ) → open_verify c n p aad now_ms ≢ panic
  unfolding open_verify
  open_verify-ne-panic p aad now_ms = require-ne-panic (p.version == wire_version_v3) _ _ (λ known.
      reject-ne-panic (ltb n.max_time_drift_ms (abs_diff now_ms p.timestamp_ms)) _ _ (λ timely.
        bind-ne-panic (precheck (get p.node_id p.epoch n.peers) p.sequence n.replay_window)
          (precheck-ne-panic (get p.node_id p.epoch n.peers) p.sequence n.replay_window window)
          (λ new looked.
            bind-ne-panic _
              (build_internal_aad_v3-ne-panic p.flags p.node_id p.epoch p.sequence p.timestamp_ms
                n.context_domain_hash aad)
              (λ internal made.
                let crypto = derive_packet_crypto c n p.node_id p.epoch p.sequence p.timestamp_ms in
                require-ne-panic (list_eq crypto.1 p.nonce) autenticacion
                  (decrypted (c.decrypt crypto.0 p.nonce p.ciphertext internal))
                  (λ same.
                    decrypted-ne-panic (c.decrypt crypto.0 p.nonce p.ciphertext internal))))))

  open_commit-ne-panic : (p : Packet) → (open_commit c n p).0 ≢ panic
  unfolding open_commit
  open_commit-ne-panic p =
      let peer : PeerReplayState = or_default (get p.node_id p.epoch n.peers) in
      let safe = check-ne-panic peer p.sequence n.replay_window window in
      elim (Result-cases (check peer p.sequence n.replay_window)) [
        | inl (u, e) ↦ rw (e, open_commit) ok-ne-panic
        | inr (inl (x, e)) ↦ rw (e, open_commit) err-ne-panic
        | inr (inr e) ↦ absurd (safe e)
      ]

  pub open_realtime-ne-panic :
      (p : Packet) (aad : List ℕ) (now_ms : ℕ) → (open_realtime c n p aad now_ms).0 ≢ panic
  unfolding open_realtime
  open_realtime-ne-panic p aad now_ms =
      let safe = open_verify-ne-panic p aad now_ms in
      elim (Result-cases (open_verify c n p aad now_ms)) [
        | inl (plaintext, e) ↦
            rw (e, open_realtime)
              (bind-ne-panic (open_commit c n p).0 (open_commit-ne-panic p) (λ u done. ok-ne-panic))
        | inr (inl (x, e)) ↦ rw (e, open_realtime) err-ne-panic
        | inr (inr e) ↦ absurd (safe e)
      ]

-- The channel.
build_internal_aad_v2-ne-panic :
    (flags sequence : ℕ) (aad : List ℕ) → build_internal_aad_v2 flags sequence aad ≢ panic
unfolding build_internal_aad_v2 build_internal_aad_v2_with_epoch
build_internal_aad_v2-ne-panic flags sequence aad = try_u32-ne-panic (length aad) _ _ ok-ne-panic

opened-ne-panic : (o : Option (List ℕ)) → opened o ≢ panic
opened-ne-panic o = or_error-ne-panic o opened err-ne-panic (λ plaintext. ok-ne-panic)

module _ (c : Crypto) (ch : ReplayWindowChannel) (window : ch.window ≤ 128) where
  ensure_sequence_is_new-ne-panic : (sequence : ℕ) → ensure_sequence_is_new ch sequence ≢ panic
  ensure_sequence_is_new-ne-panic sequence =
      rw (ensure-check ch sequence) (check-ne-panic (as_peer ch) sequence ch.window window)

  open_plaintext-ne-panic : (p : Packet) (aad : List ℕ) → open_plaintext c ch p aad ≢ panic
  unfolding open_plaintext
  open_plaintext-ne-panic p aad = require-ne-panic (p.version == wire_version_v2) _ _ (λ known.
      bind-ne-panic (ensure_sequence_is_new ch p.sequence)
        (ensure_sequence_is_new-ne-panic p.sequence)
        (λ new looked.
          require-ne-panic (list_eq p.nonce (compute_nonce ch.rx_nonce_mask p.sequence)) _ _
            (λ same.
              bind-ne-panic (build_internal_aad_v2 p.flags p.sequence aad)
                (build_internal_aad_v2-ne-panic p.flags p.sequence aad)
                (λ internal made.
                  opened-ne-panic (c.decrypt ch.rx_key p.nonce p.ciphertext internal)))))

  open_packet-ne-panic : (p : Packet) (aad : List ℕ) → (open_packet c ch p aad).0 ≢ panic
  unfolding open_packet
  open_packet-ne-panic p aad =
      let safe = open_plaintext-ne-panic p aad in
      elim (Result-cases (open_plaintext c ch p aad)) [
        | inl (plaintext, e) ↦ rw (e, open_packet) ok-ne-panic
        | inr (inl (x, e)) ↦ rw (e, open_packet) err-ne-panic
        | inr (inr e) ↦ absurd (safe e)
      ]

-- A node whose window is at most 128 does not panic on opening a packet, and a channel whose window is
-- at most 128 does not either, whatever the packet, the associated data and their states are: the
-- check of the packet's number never shifts by 128 or more places.
pub opens-ne-panic :
    (c : Crypto) (n : ChronoMeshNode) (ch : ReplayWindowChannel) (p : Packet) (aad : List ℕ)
    (now_ms : ℕ)
    → n.replay_window ≤ 128
    → ch.window ≤ 128
    → ((open_realtime c n p aad now_ms).0 ≢ panic) × ((open_packet c ch p aad).0 ≢ panic)
opens-ne-panic c n ch p aad now_ms node channel =
    (open_realtime-ne-panic c n node p aad now_ms, open_packet-ne-panic c ch channel p aad)

-- ===== src/Chrono/Repeat.antt =====
-- A packet that is opened a second time.
use cripto_endevs_comunity.Base.{
  ℕ, ◌≤◌, ◌≡◌, refl, ap, ◌∙◌, true, false, Option, some, none, List, [], ◌∷◌, arith, ltb, le→ltb,
  ◌==◌, ==_refl, inl, inr, Bool-cases,
}
use cripto_endevs_comunity.Error.{ok, err, Result-cases, repetido}
use cripto_endevs_comunity.Crypto.{Crypto}
use cripto_endevs_comunity.Packet.{Packet}
use cripto_endevs_comunity.Window.{PeerReplayState, default, check, record_seq}
use cripto_endevs_comunity.Window.Meaning.{Tracks, check-expected, record_seq-Tracks}
use cripto_endevs_comunity.Chrono.Peers.{get, insert, get-insert}
use cripto_endevs_comunity.Chrono.{
  ChronoMeshNode, abs_diff, or_default, open_verify, open_commit, open_realtime,
}

default-Tracks : (window : ℕ) → Tracks default window []
default-Tracks window = record { highest = refl; places = λ h d e r k. cc }

check-record_seq :
    (seq window : ℕ)
    → 1 ≤ window
    → window ≤ 128
    → check (record_seq default seq window) seq window ≡ err repetido
check-record_seq seq window low high =
    check-expected (record_seq default seq window) seq window (seq ∷ [])
      (record_seq-Tracks default seq window [] (default-Tracks window) high) high
    ∙ ground arith

module _ (c : Crypto) (n : ChronoMeshNode) (p : Packet) (aad : List ℕ) where
  open_realtime-ok :
      (now_ms : ℕ) {plaintext : List ℕ}
      → (open_realtime c n p aad now_ms).0 ≡ ok plaintext
      → (open_verify c n p aad now_ms ≡ ok plaintext)
        × ((open_commit c n p).0 ≡ ok tt)
        × ((open_realtime c n p aad now_ms).1 ≡ (open_commit c n p).1)
  unfolding open_realtime
  open_realtime-ok now_ms h = elim (Result-cases (open_verify c n p aad now_ms)) [
    | inl (pt, e) ↦ elim (Result-cases (open_commit c n p).0) [
      | inl (_, done) ↦ (ground arith, ground arith, rw (open_realtime, e) refl)
      | inr other ↦ absurd (ground arith)
    ]
    | inr other ↦ absurd (ground arith)
  ]

  open_verify-version :
      (now_ms : ℕ) {plaintext : List ℕ}
      → open_verify c n p aad now_ms ≡ ok plaintext
      → (p.version == 3) ≡ true
  unfolding open_verify
  open_verify-version now_ms h = elim (Bool-cases (p.version == 3)) [
    | inl same ↦ same
    | inr other ↦ absurd (ground arith)
  ]

  -- What a commit of the first packet of a peer leaves.
  open_commit_first :
      get p.node_id p.epoch n.peers ≡ none
      → (open_commit c n p).0 ≡ ok tt
      → (get p.node_id p.epoch (open_commit c n p).1.peers
          ≡ some (record_seq default p.sequence n.replay_window))
        × ((open_commit c n p).1.replay_window ≡ n.replay_window)
        × ((open_commit c n p).1.max_time_drift_ms ≡ n.max_time_drift_ms)
  unfolding open_commit
  open_commit_first first h =
      let peer : PeerReplayState = or_default (get p.node_id p.epoch n.peers) in
      let s : PeerReplayState = record_seq peer p.sequence n.replay_window in
      let found : get p.node_id p.epoch (insert p.node_id p.epoch s n.peers) ≡ some s =
        rw
          (
            get-insert p.node_id p.epoch p.node_id p.epoch s n.peers,
            ==_refl p.node_id,
            ==_refl p.epoch,
          )
          refl in
      let fresh : s ≡ record_seq default p.sequence n.replay_window =
        ap (λ (e : Option PeerReplayState). record_seq (or_default e) p.sequence n.replay_window)
          first in
      elim (Result-cases (check peer p.sequence n.replay_window)) [
        | inl (_, good) ↦ rw (open_commit, good) (found ∙ ap some fresh, refl, refl)
        | inr other ↦ absurd (ground arith)
      ]

-- A node that opened the first packet of a peer refuses it as repeated when it is opened again in
-- time, if its window is from 1 to 128.
pub open_realtime-twice :
    (c : Crypto) (n : ChronoMeshNode) (p : Packet) (aad plaintext : List ℕ) (now_ms later_ms : ℕ)
    → 1 ≤ n.replay_window
    → n.replay_window ≤ 128
    → get p.node_id p.epoch n.peers ≡ none
    → (open_realtime c n p aad now_ms).0 ≡ ok plaintext
    → abs_diff later_ms p.timestamp_ms ≤ n.max_time_drift_ms
    → (open_realtime c (open_realtime c n p aad now_ms).1 p aad later_ms).0 ≡ err repetido
unfolding open_realtime open_verify
open_realtime-twice c n p aad plaintext now_ms later_ms low high first h timely =
    let (verified, commits, left) = open_realtime-ok c n p aad now_ms h in
    let version = open_verify-version c n p aad now_ms verified in
    let (found, window, drift) = open_commit_first c n p aad first commits in
    let fresh : ltb n.max_time_drift_ms (abs_diff later_ms p.timestamp_ms) ≡ false =
      le→ltb _ _ timely in
    let again = check-record_seq p.sequence n.replay_window low high in
    let refused : open_verify c (open_commit c n p).1 p aad later_ms ≡ err repetido =
      rw (open_verify, version, drift, fresh, found, window, again) refl in
    rw left (rw (open_realtime, refused) refl)

-- ===== src/Chrono/Threads/Opened.antt =====
-- What threads open: the windows of the peers in every order of the steps.
use cripto_endevs_comunity.Base.{
  ℕ, ◌≤◌, ◌≡◌, refl, sym, ap, ◌∙◌, false, ◌&&◌, List, [], ◌∷◌, arith, ◌==◌, inl, inr, Bool-cases,
  if◌then◌else◌,
}
use cripto_endevs_comunity.Error.{Error, ok, err}
use cripto_endevs_comunity.Crypto.{Crypto}
use cripto_endevs_comunity.Packet.{Packet}
use cripto_endevs_comunity.Window.{PeerReplayState, check, record_seq}
use cripto_endevs_comunity.Window.Meaning.{elem, Tracks, check-expected, record_seq-Tracks}
use cripto_endevs_comunity.Window.History.{Distinct, is_ok, is_new}
use cripto_endevs_comunity.Chrono.{ChronoMeshNode, draw_sequence, note_packet, open_commit}
use cripto_endevs_comunity.Chrono.Peers.{get, get-insert}
use cripto_endevs_comunity.Chrono.Threads.{
  Running, fresh, Step, draw, note, verify, commit, refuse, Reach, here, next, numbers, window_of,
}

-- The invariant, for every key.
abbrev pub IsSound : Running → Type 0
IsSound r =
    (r.node.replay_window ≤ 128)
    × ((node epoch : ℕ)
        → Tracks (window_of r.node node epoch) r.node.replay_window (numbers node epoch r.opened)
          × Distinct (numbers node epoch r.opened))

-- A commit changes the window of its own key only, and only if it succeeds.
module _ (c : Crypto) (n : ChronoMeshNode) (p : Packet) where
  replay_window-open_commit : (open_commit c n p).1.replay_window ≡ n.replay_window
  unfolding open_commit
  replay_window-open_commit = ground arith

  window_of-commit :
      (node epoch : ℕ)
      → (open_commit c n p).0 ≡ ok tt
      → window_of (open_commit c n p).1 node epoch ≡ (
          if (p.node_id == node) && (p.epoch == epoch)
          then record_seq (window_of n p.node_id p.epoch) p.sequence n.replay_window
          else window_of n node epoch)
  unfolding open_commit
  window_of-commit node epoch h =
      let peer : PeerReplayState = window_of n p.node_id p.epoch in
      ground (
        arith,
        get-insert p.node_id p.epoch node epoch (record_seq peer p.sequence n.replay_window)
            n.peers,
      )

  window_of-refuse :
      {e : Error} (node epoch : ℕ)
      → (open_commit c n p).0 ≡ err e
      → window_of (open_commit c n p).1 node epoch ≡ window_of n node epoch
  unfolding open_commit
  window_of-refuse node epoch h =
      let peer : PeerReplayState = window_of n p.node_id p.epoch in
      ground (arith, get-insert p.node_id p.epoch node epoch peer n.peers)

  commit_is_new :
      (open_commit c n p).0 ≡ ok tt
      → check (window_of n p.node_id p.epoch) p.sequence n.replay_window ≡ ok tt
  unfolding open_commit
  commit_is_new h = ground arith

-- What a commit that succeeds does to the invariant, at each key.
module _ (c : Crypto) (n : ChronoMeshNode) (p : Packet) (opened : List Packet)
    (w : n.replay_window ≤ 128)
    (sound : (node epoch : ℕ)
      → Tracks (window_of n node epoch) n.replay_window (numbers node epoch opened)
        × Distinct (numbers node epoch opened))
    (h : (open_commit c n p).0 ≡ ok tt) where
  abbrev after : ChronoMeshNode
  after = (open_commit c n p).1

  is_new_number : elem p.sequence (numbers p.node_id p.epoch opened) ≡ false
  is_new_number = is_new p.sequence n.replay_window (numbers p.node_id p.epoch opened) (
      ap is_ok (
        sym (
          check-expected (window_of n p.node_id p.epoch) p.sequence n.replay_window
            (numbers p.node_id p.epoch opened) (sound p.node_id p.epoch).0 w)
        ∙ commit_is_new c n p h))

  commit-Tracks :
      (node epoch : ℕ)
      → Tracks (window_of after node epoch) after.replay_window (numbers node epoch (p ∷ opened))
        × Distinct (numbers node epoch (p ∷ opened))
  unfolding numbers
  commit-Tracks node epoch =
      let moved = window_of-commit c n p node epoch h in
      elim (Bool-cases ((p.node_id == node) && (p.epoch == epoch))) [
        | inl same ↦
            let e : p.node_id ≡ node = ground arith in
            let e' : p.epoch ≡ epoch = ground arith in
            let key : numbers node epoch opened ≡ numbers p.node_id p.epoch opened = rw (e, e') in
            rw (replay_window-open_commit c n p, moved, same, key)
              (
                record_seq-Tracks (window_of n p.node_id p.epoch) p.sequence n.replay_window
                    (numbers p.node_id p.epoch opened) (sound p.node_id p.epoch).0 w,
                (is_new_number, (sound p.node_id p.epoch).1),
              )
        | inr other ↦ rw (replay_window-open_commit c n p, moved, other) (sound node epoch)
      ]

Step-IsSound : (c : Crypto) {r u : Running} → Step c r u → IsSound r → IsSound u
unfolding draw_sequence note_packet
Step-IsSound c (draw e) s = rw e s
Step-IsSound c (note p e) s = rw e s
Step-IsSound c (verify p aad plaintext now_ms passed e) s = rw e s
Step-IsSound c {r} (commit p before after held good e) s =
    rw e (
      rw (replay_window-open_commit c r.node p) s.0,
      commit-Tracks c r.node p r.opened s.0 s.1 good,
    )
Step-IsSound c {r} (refuse p before after x held bad e) s = rw e (
  rw (replay_window-open_commit c r.node p) s.0,
  λ node epoch.
      rw (replay_window-open_commit c r.node p, window_of-refuse c r.node p node epoch bad)
        (s.1 node epoch),
)

pub Reach-IsSound : (c : Crypto) {r u : Running} → IsSound r → Reach c r u → IsSound u
Reach-IsSound c s here = s
Reach-IsSound c s (next steps step) = Step-IsSound c step (Reach-IsSound c s steps)

pub fresh-IsSound : (n : ChronoMeshNode) → n.replay_window ≤ 128 → n.peers ≡ [] → IsSound (fresh n)
unfolding get numbers
fresh-IsSound n w e =
    (w, λ node epoch. rw e (record { highest = refl; places = λ h d e' r k. cc }, tt))

-- Whatever threads that seal and open on a node do, in whatever order their steps fall: from a node
-- without peers and with a window of at most 128, no two opened packets of one node and epoch have
-- one sequence number.
pub Reach-Distinct_opened :
    (c : Crypto) (n : ChronoMeshNode) {u : Running} (node epoch : ℕ)
    → n.replay_window ≤ 128
    → n.peers ≡ []
    → Reach c (fresh n) u
    → Distinct (numbers node epoch u.opened)
Reach-Distinct_opened c n node epoch w e steps =
    ((Reach-IsSound c (fresh-IsSound n w e) steps).1 node epoch).1

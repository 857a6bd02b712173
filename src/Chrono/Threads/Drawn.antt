-- ===== src/Chrono/Threads/Drawn.antt =====
-- The sequence numbers that sealing threads draw.
use cripto_endevs_comunity.Base.{
  ℕ, ◌%◌, ◌^◌, ◌≤◌, ◌<◌, ◌≡◌, refl, false, List, [], ◌∷◌, length, arith, All, All-mono,
}
use cripto_endevs_comunity.Crypto.{Crypto}
use cripto_endevs_comunity.Packet.{Packet}
use cripto_endevs_comunity.Window.Meaning.{elem}
use cripto_endevs_comunity.Window.History.{Distinct}
use cripto_endevs_comunity.Chrono.{ChronoMeshNode, draw_sequence, note_packet, open_commit}
use cripto_endevs_comunity.Chrono.Threads.{
  Running, fresh, Step, draw, note, verify, commit, refuse, Reach, here, next,
}

tx_seq-open_commit :
    (c : Crypto) (n : ChronoMeshNode) (p : Packet) → (open_commit c n p).1.tx_seq ≡ n.tx_seq
unfolding open_commit
tx_seq-open_commit c n p = ground arith

-- The numbers that were drawn, while they are fewer than 2^64.
abbrev IsDrawn : Running → Type 0
IsDrawn r =
    length r.drawn ≤ 2 ^ 64
    → (r.node.tx_seq ≡ length r.drawn % 2 ^ 64)
      × All (λ k. k < length r.drawn) r.drawn
      × Distinct r.drawn

elem_above : (k : ℕ) (ks : List ℕ) → All (λ j. j < k) ks → elem k ks ≡ false
elem_above k [] h = refl
elem_above k (j ∷ ks) h = ground (arith, elem_above k ks h.1)

draw-IsDrawn :
    (r : Running)
    → IsDrawn r
    → IsDrawn (record r { node = draw_sequence r.node; drawn = r.node.tx_seq ∷ r.drawn })
unfolding draw_sequence
draw-IsDrawn r d more =
    let (at, below, distinct) = d (omega arith) in
    let here : r.node.tx_seq ≡ length r.drawn = omega arith in
    (
      omega arith,
      (omega arith, All-mono (λ (k : ℕ) (h : k < length r.drawn). omega arith) r.drawn below),
      (rw here (elem_above (length r.drawn) r.drawn below), distinct),
    )

Step-IsDrawn : (c : Crypto) {r u : Running} → Step c r u → IsDrawn r → IsDrawn u
unfolding note_packet open_commit
Step-IsDrawn c {r} (draw e) d = rw e (draw-IsDrawn r d)
Step-IsDrawn c (note p e) d = rw e d
Step-IsDrawn c (verify p aad plaintext now_ms passed e) d = rw e d
Step-IsDrawn c {r} (commit p before after held good e) d = rw (e, tx_seq-open_commit c r.node p) d
Step-IsDrawn c {r} (refuse p before after x held bad e) d = rw (e, tx_seq-open_commit c r.node p) d

Reach-IsDrawn : (c : Crypto) {r u : Running} → IsDrawn r → Reach c r u → IsDrawn u
Reach-IsDrawn c d here = d
Reach-IsDrawn c d (next steps step) = Step-IsDrawn c step (Reach-IsDrawn c d steps)

-- Whatever threads that seal and open on a node do, in whatever order their steps fall: from a counter
-- of 0, and while at most 2^64 numbers were drawn, no two of them are the same.
pub Reach-Distinct_drawn :
    (c : Crypto) (n : ChronoMeshNode) {u : Running}
    → n.tx_seq ≡ 0
    → Reach c (fresh n) u
    → length u.drawn ≤ 2 ^ 64
    → Distinct u.drawn
Reach-Distinct_drawn c n zero_seq steps few =
    (Reach-IsDrawn c (λ h. (omega arith, tt, tt)) steps few).2

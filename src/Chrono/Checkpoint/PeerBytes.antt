-- ===== src/Chrono/Checkpoint/PeerBytes.antt =====
-- The peers of a node, written to a checkpoint and read from it.
use mathlib.Core.List.{map}
use cripto_endevs_comunity.Base.{
  ℕ, ◌+◌, ◌-◌, ◌*◌, ◌^◌, ◌<◌, ◌≡◌, refl, ◌==◌, if◌then◌else◌, Option, some, none, List, [], ◌∷◌,
  ◌++◌, length, arith, append-nil, append_assoc, length-append, All, All-append,
}
use cripto_endevs_comunity.Error.{ok}
use cripto_endevs_comunity.Bytes.{be}
use cripto_endevs_comunity.Bytes.BigEndian.{length-be}
use cripto_endevs_comunity.Bytes.Slices.{read_be_at, length-flat}
use cripto_endevs_comunity.Chrono.Peers.{PeerEntry, PeerMap}
use cripto_endevs_comunity.Chrono.Peers.Order.{IsLess, IsSorted, insert-append}
use cripto_endevs_comunity.Chrono.Checkpoint.{
  highest_raw, highest_of_raw, peer_bytes, peers_bytes, read_peer, read_peers,
}

-- The ranges of the Rust types of an entry.
pub record IsPeer (e : PeerEntry) : Type 0 where
  pub node : e.node < 2 ^ 32
  pub epoch : e.epoch < 2 ^ 64
  pub highest : highest_raw e.state.highest_seen < 2 ^ 64
  pub bitmap : e.state.seen_bitmap < 2 ^ 128

-- A highest number of 2^64 - 1 is written like none, and is read back as none.
abbrev pub readable : Option ℕ → Option ℕ
readable none = none
readable (some h) = if h == 2 ^ 64 - 1 then none else some h

-- What a checkpoint keeps of an entry: all but the count of received packets, and all but a highest
-- number of 2^64 - 1.
abbrev pub kept : PeerEntry → PeerEntry
kept e = record {
  node = e.node;
  epoch = e.epoch;
  state = record {
    highest_seen = readable e.state.highest_seen;
    seen_bitmap = e.state.seen_bitmap;
    received_count = 0;
  };
}

highest_of_raw-highest_raw : (h : Option ℕ) → highest_of_raw (highest_raw h) ≡ readable h
highest_of_raw-highest_raw none = refl
highest_of_raw-highest_raw (some h) = ground arith

length-peer_bytes : (e : PeerEntry) → length (peer_bytes e) ≡ 36
unfolding peer_bytes
length-peer_bytes e = omega (
  arith,
  length-flat (be 4 e.node ∷ be 8 e.epoch ∷ be 8 (highest_raw e.state.highest_seen) ∷ [])
      (be 16 e.state.seen_bitmap),
  length-be 4 e.node,
  length-be 8 e.epoch,
  length-be 8 (highest_raw e.state.highest_seen),
  length-be 16 e.state.seen_bitmap,
)

pub length-peers_bytes : (m : PeerMap) → length (peers_bytes m) ≡ length m * 36
unfolding peers_bytes
length-peers_bytes [] = refl
length-peers_bytes (e ∷ m) =
    omega (
      arith,
      length-append (peer_bytes e) (peers_bytes m),
      length-peer_bytes e,
      length-peers_bytes m,
    )

module _ (e : PeerEntry) (valid : IsPeer e) (before rest : List ℕ) where
  read_peer-peer_bytes : read_peer (length before) (before ++ (peer_bytes e ++ rest)) ≡ ok (kept e)
  unfolding read_peer peer_bytes
  read_peer-peer_bytes =
      let o : ℕ = length before in
      let h : ℕ = highest_raw e.state.highest_seen in
      let l1 = length-be 4 e.node in
      let l2 = length-be 8 e.epoch in
      let l3 = length-be 8 h in
      let apart : before ++ (peer_bytes e ++ rest)
          ≡ before
            ++ (be 4 e.node ++ (be 8 e.epoch ++ (be 8 h ++ (be 16 e.state.seen_bitmap ++ rest)))) =
        simp append_assoc in
      rw
        (
          apart,
          read_be_at (before ∷ []) 4 o e.node
              (be 8 e.epoch ++ (be 8 h ++ (be 16 e.state.seen_bitmap ++ rest))) (omega arith)
              valid.node,
          read_be_at (before ∷ be 4 e.node ∷ []) 8 (o + 4) e.epoch
              (be 8 h ++ (be 16 e.state.seen_bitmap ++ rest)) (omega arith) valid.epoch,
          read_be_at (before ∷ be 4 e.node ∷ be 8 e.epoch ∷ []) 8 (o + 12) h
              (be 16 e.state.seen_bitmap ++ rest) (omega arith) valid.highest,
          read_be_at (before ∷ be 4 e.node ∷ be 8 e.epoch ∷ be 8 h ∷ []) 16 (o + 20)
              e.state.seen_bitmap rest (omega arith) valid.bitmap,
          highest_of_raw-highest_raw e.state.highest_seen,
        )
        refl

-- The entries of `m` come behind those of `acc`.
abbrev pub Behind : PeerMap → PeerMap → Type 0
Behind acc m = All (λ e. All (λ a. IsLess a e) acc) m

Behind-more :
    (acc : PeerMap) (e : PeerEntry) (m : PeerMap)
    → Behind acc m
    → All (IsLess e) m
    → Behind (acc ++ (kept e ∷ [])) m
Behind-more acc e [] b l = tt
Behind-more acc e (x ∷ m) b l =
    (All-append (λ a. IsLess a x) acc (kept e ∷ []) b.0 (l.0, tt), Behind-more acc e m b.1 l.1)

pub read_peers-peers_bytes :
    (m acc : PeerMap) (front : List ℕ)
    → All IsPeer m
    → IsSorted m
    → Behind acc m
    → read_peers (length m) (length front) (front ++ peers_bytes m) acc ≡ ok (acc ++ map kept m)
unfolding read_peers peers_bytes
read_peers-peers_bytes [] acc front v s b = rw append-nil refl
read_peers-peers_bytes (e ∷ m) acc front v s b =
    let place : length (front ++ peer_bytes e) ≡ length front + 36 =
      omega (arith, length-append front (peer_bytes e), length-peer_bytes e) in
    let rec =
      read_peers-peers_bytes m (acc ++ (kept e ∷ [])) (front ++ peer_bytes e) v.1 s.1
        (Behind-more acc e m b.1 s.0) in
    rw (read_peer-peer_bytes e v.0 front (peers_bytes m), insert-append acc (kept e) b.0, ← place)
      (rw
        (
          append_assoc front (peer_bytes e) (peers_bytes m),
          append_assoc acc (kept e ∷ []) (map kept m),
        )
        at rec)

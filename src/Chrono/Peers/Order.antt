-- ===== src/Chrono/Peers/Order.antt =====
-- The order of the entries of the map, which an iteration follows.
use cripto_endevs_comunity.Base.{ℕ, ◌<◌, ◌≡◌, refl, ◌⊎◌, [], ◌∷◌, ◌++◌, All, arith}
use cripto_endevs_comunity.Window.{PeerReplayState}
use cripto_endevs_comunity.Chrono.Peers.{PeerEntry, PeerMap, insert}

-- The key of the first entry is the smaller one.
abbrev pub IsLess : PeerEntry → PeerEntry → Type 0
IsLess a b = (a.node < b.node) ⊎ ((a.node ≡ b.node) × (a.epoch < b.epoch))

abbrev pub IsSorted : PeerMap → Type 0
IsSorted [] = Unit
IsSorted (e ∷ m) = All (IsLess e) m × IsSorted m

insert-All :
    (a : PeerEntry) (node epoch : ℕ) (s : PeerReplayState) (m : PeerMap)
    → IsLess a (record { node = node; epoch = epoch; state = s })
    → All (IsLess a) m
    → All (IsLess a) (insert node epoch s m)
unfolding insert
insert-All a node epoch s [] l h = ground arith
insert-All a node epoch s (e ∷ m) l h = ground (arith, insert-All a node epoch s m l h.1)

IsLess-trans : (a b : PeerEntry) (m : PeerMap) → IsLess a b → All (IsLess b) m → All (IsLess a) m
IsLess-trans a b [] l h = tt
IsLess-trans a b (e ∷ m) l h = (ground arith, IsLess-trans a b m l h.1)

-- Only the key of an entry decides its place.
same_key :
    (e : PeerEntry) (s : PeerReplayState) (m : PeerMap)
    → All (IsLess e) m
    → All (IsLess (record e { state = s })) m
same_key e s [] h = tt
same_key e s (x ∷ m) h = (h.0, same_key e s m h.1)

pub insert-IsSorted :
    (node epoch : ℕ) (s : PeerReplayState) (m : PeerMap)
    → IsSorted m
    → IsSorted (insert node epoch s m)
unfolding insert
insert-IsSorted node epoch s [] h = (tt, tt)
insert-IsSorted node epoch s (e ∷ m) h =
    let new : PeerEntry = record { node = node; epoch = epoch; state = s } in
    ground (
      arith,
      insert-IsSorted node epoch s m h.1,
      insert-All e node epoch s m,
      IsLess-trans new e m,
      same_key e s m h.0,
    )

-- A key above all others is inserted at the end.
pub insert-append :
    (m : PeerMap) (e : PeerEntry)
    → All (λ a. IsLess a e) m
    → insert e.node e.epoch e.state m ≡ m ++ (e ∷ [])
unfolding insert
insert-append [] e h = refl
insert-append (a ∷ m) e h = ground (arith, insert-append m e h.1)

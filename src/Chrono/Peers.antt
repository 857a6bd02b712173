-- ===== src/Chrono/Peers.antt =====
-- The `BTreeMap<(u32, u64), PeerReplayState>` of a node, which is std's: a list in the order of the
-- keys, a node number before an epoch.
pub mod Order
use cripto_endevs_comunity.Base.{
  ℕ, Bool, ◌≡◌, Option, some, none, List, [], ◌∷◌, ltb, ◌==◌, ◌&&◌, ◌||◌, if◌then◌else◌, arith,
}
use cripto_endevs_comunity.Window.{PeerReplayState}

pub record PeerEntry : Type 0 where
  pub node : ℕ
  pub epoch : ℕ
  pub state : PeerReplayState

abbrev pub PeerMap : Type 0
PeerMap = List PeerEntry

abbrev pub is_key : ℕ → ℕ → PeerEntry → Bool
is_key node epoch e = (node == e.node) && (epoch == e.epoch)

abbrev pub is_before : ℕ → ℕ → PeerEntry → Bool
is_before node epoch e = ltb node e.node || ((node == e.node) && ltb epoch e.epoch)

unfoldable pub get : ℕ → ℕ → PeerMap → Option PeerReplayState
get node epoch [] = none
get node epoch (e ∷ m) = if is_key node epoch e then some e.state else get node epoch m

unfoldable pub insert : ℕ → ℕ → PeerReplayState → PeerMap → PeerMap
insert node epoch s [] = record { node = node; epoch = epoch; state = s } ∷ []
insert node epoch s (e ∷ m) =
    if is_key node epoch e
    then record e { state = s } ∷ m
    else if is_before node epoch e
    then record { node = node; epoch = epoch; state = s } ∷ e ∷ m
    else e ∷ insert node epoch s m

-- A lookup after an insertion finds the state inserted under its own key, and what was there under
-- every other.
pub get-insert :
    (node epoch node' epoch' : ℕ) (s : PeerReplayState) (m : PeerMap)
    → get node' epoch' (insert node epoch s m)
      ≡ (if (node == node') && (epoch == epoch') then some s else get node' epoch' m)
unfolding get insert
get-insert node epoch node' epoch' s [] = ground arith
get-insert node epoch node' epoch' s (e ∷ m) =
    ground (arith, get-insert node epoch node' epoch' s m)

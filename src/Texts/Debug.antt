-- ===== src/Texts/Debug.antt =====
-- `Debug` of the types that hold keys: src/seed.rs, src/modes/ordered.rs, src/modes/replay.rs and
-- src/modes/chrono.rs.
use Prim.Native.String.{String}
use cripto_endevs_comunity.Base.{
  ℕ, ◌≡◌, refl, Bool, true, false, Option, none, some, List, [], ◌∷◌, ◌++◌, codes,
}
use cripto_endevs_comunity.Seed.{MasterSeed}
use cripto_endevs_comunity.Ordered.{CryptoNugget}
use cripto_endevs_comunity.Replay.{ReplayWindowChannel}
use cripto_endevs_comunity.Chrono.{ChronoMeshNode}
use cripto_endevs_comunity.Texts.{decimal}

-- `.field(name, &value)`, with the text of the value.
pub record Field : Type 0 where
  pub name : List ℕ
  pub value : List ℕ

abbrev field : String → List ℕ → Field
field name value = record { name = codes name; value = value }

-- `debug_struct(name)` with its fields, to `finish()`: `Name { a: 1, b: 2 }`.
unfoldable pub more_fields : List Field → List ℕ
more_fields [] = codes " }"
more_fields (f ∷ fs) = codes ", " ++ (f.name ++ (codes ": " ++ (f.value ++ more_fields fs)))

unfoldable pub debug_struct : String → List Field → List ℕ
unfolding more_fields
debug_struct name [] = codes name
debug_struct name (f ∷ fs) =
    codes name ++ (codes " { " ++ (f.name ++ (codes ": " ++ (f.value ++ more_fields fs))))

-- `{:?}` of the literal, of a number, of a `bool` and of an `Option<u64>`.
abbrev redacted : List ℕ
redacted = codes "\"<redacted>\""

abbrev number : ℕ → List ℕ
number n = decimal 20 n

abbrev bool_text : Bool → List ℕ
bool_text true = codes "true"
bool_text false = codes "false"

abbrev option_text : Option ℕ → List ℕ
option_text none = codes "None"
option_text (some n) = codes "Some(" ++ (number n ++ codes ")")

pub debug_seed : MasterSeed → List ℕ
unfolding debug_struct
debug_seed s = debug_struct "MasterSeed" (field "bytes" redacted ∷ [])

pub debug_nugget : CryptoNugget → List ℕ
unfolding debug_struct decimal
debug_nugget n = debug_struct "CryptoNugget" (
    field "tx_key" redacted
    ∷ field "rx_key" redacted
    ∷ field "tx_seq" (number n.tx_seq)
    ∷ field "rx_seq" (number n.rx_seq)
    ∷ field "epoch" (number n.epoch)
    ∷ field "requires_resume_ack" (bool_text n.requires_resume_ack)
    ∷ [])

unfoldable pub debug_replay : ReplayWindowChannel → List ℕ
unfolding debug_struct decimal
debug_replay ch = debug_struct "ReplayWindowChannel" (
    field "tx_key" redacted
    ∷ field "rx_key" redacted
    ∷ field "tx_seq" (number ch.tx_seq)
    ∷ field "highest_seen" (option_text ch.highest_seen)
    ∷ field "window" (number ch.window)
    ∷ [])

pub debug_node : ChronoMeshNode → List ℕ
unfolding debug_struct decimal
debug_node n = debug_struct "ChronoMeshNode" (
    field "mesh_root_key" redacted
    ∷ field "node_id" (number n.node_id)
    ∷ field "epoch" (number n.epoch)
    ∷ field "tx_seq" (number n.tx_seq)
    ∷ field "max_time_drift_ms" (number n.max_time_drift_ms)
    ∷ [])

-- The texts do not depend on what is secret: seeds of any bytes have one text, and so have channels that
-- differ in their keys, hashes, masks, bitmap and context, and nodes that differ in their keys and in
-- what they keep of their peers.
pub debug_redacted :
    (s t : MasterSeed) (n n' : CryptoNugget) (ch ch' : ReplayWindowChannel) (m m' : ChronoMeshNode)
    → n.tx_seq ≡ n'.tx_seq
    → n.rx_seq ≡ n'.rx_seq
    → n.epoch ≡ n'.epoch
    → n.requires_resume_ack ≡ n'.requires_resume_ack
    → ch.tx_seq ≡ ch'.tx_seq
    → ch.highest_seen ≡ ch'.highest_seen
    → ch.window ≡ ch'.window
    → m.node_id ≡ m'.node_id
    → m.epoch ≡ m'.epoch
    → m.tx_seq ≡ m'.tx_seq
    → m.max_time_drift_ms ≡ m'.max_time_drift_ms
    → (debug_seed s ≡ debug_seed t)
      × (debug_nugget n ≡ debug_nugget n')
      × (debug_replay ch ≡ debug_replay ch')
      × (debug_node m ≡ debug_node m')
unfolding debug_seed debug_nugget debug_replay debug_node
debug_redacted s t n n' ch ch' m m' e₁ e₂ e₃ e₄ f₁ f₂ f₃ g₁ g₂ g₃ g₄ =
    (refl, rw (e₁, e₂, e₃, e₄) refl, rw (f₁, f₂, f₃) refl, rw (g₁, g₂, g₃, g₄) refl)

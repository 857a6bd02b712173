-- ===== src/Modes.antt =====
-- src/modes/mod.rs: the mode of a `Builder`, and what it builds.
use cripto_endevs_comunity.Base.{ℕ, List, codes}
use cripto_endevs_comunity.Error.{Result, ok, err, modo_invalido}
use cripto_endevs_comunity.Crypto.{Crypto}
use cripto_endevs_comunity.Role.{Role}
use cripto_endevs_comunity.Envelope.{StatelessEnvelope}
use cripto_endevs_comunity.Envelope
use cripto_endevs_comunity.Ordered.{CryptoNugget}
use cripto_endevs_comunity.Ordered
use cripto_endevs_comunity.Replay.{ReplayWindowChannel}
use cripto_endevs_comunity.Replay
use cripto_endevs_comunity.Chrono.{ChronoMeshNode}
use cripto_endevs_comunity.Chrono

pub data Mode : Type 0 where
  ordered_channel stateless_envelope : Mode
  replay_window_channel : (window : ℕ) → Mode
  chrono_mesh : (node_id boot_epoch max_time_drift_ms : ℕ) → Mode

pub record Builder : Type 0 where
  pub seed : List ℕ
  pub role : Role
  pub context : List ℕ
  pub chosen : Mode

-- `Builder::new`, and `CryptoNugget::builder` and `builder_with_context` over it.
pub new : (seed : List ℕ) → Role → (context : List ℕ) → Builder
new seed role context = record {
  seed = seed;
  role = role;
  context = context;
  chosen = ordered_channel;
}

pub builder_with_context : (seed : List ℕ) → Role → (context : List ℕ) → Builder
unfolding new
builder_with_context seed role context = new seed role context

pub builder : (seed : List ℕ) → Role → Builder
unfolding new
builder seed role = new seed role (codes "cryptonugget:v1")

pub with_mode : Builder → Mode → Builder
with_mode b chosen = record b { chosen = chosen }

pub build_ordered : Crypto → Builder → Result CryptoNugget
build_ordered c b = elim b.chosen [
  | ordered_channel ↦ ok (Ordered.new_with_context c b.seed b.role b.context)
  | stateless_envelope ↦ err modo_invalido
  | replay_window_channel window ↦ err modo_invalido
  | chrono_mesh node_id boot_epoch max_time_drift_ms ↦ err modo_invalido
]

pub build_stateless_envelope : Crypto → Builder → Result StatelessEnvelope
build_stateless_envelope c b = elim b.chosen [
  | ordered_channel ↦ err modo_invalido
  | stateless_envelope ↦ ok (Envelope.new_with_context c b.seed b.context)
  | replay_window_channel window ↦ err modo_invalido
  | chrono_mesh node_id boot_epoch max_time_drift_ms ↦ err modo_invalido
]

pub build_replay_window : Crypto → Builder → Result ReplayWindowChannel
build_replay_window c b = elim b.chosen [
  | ordered_channel ↦ err modo_invalido
  | stateless_envelope ↦ err modo_invalido
  | replay_window_channel window ↦ Replay.new_with_context c b.seed b.role b.context window
  | chrono_mesh node_id boot_epoch max_time_drift_ms ↦ err modo_invalido
]

pub build_chrono_mesh : Crypto → Builder → Result ChronoMeshNode
build_chrono_mesh c b = elim b.chosen [
  | ordered_channel ↦ err modo_invalido
  | stateless_envelope ↦ err modo_invalido
  | replay_window_channel window ↦ err modo_invalido
  | chrono_mesh node_id boot_epoch max_time_drift_ms ↦
      ok (Chrono.new c b.seed b.context node_id boot_epoch max_time_drift_ms)
]

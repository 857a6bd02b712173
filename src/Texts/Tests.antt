-- ===== src/Texts/Tests.antt =====
-- The texts of two channels, of a node and of an error.
use cripto_endevs_comunity.Base.{ℕ, ◌≡◌, refl, false, some, [], ◌∷◌, replicate, codes}
use cripto_endevs_comunity.Error.{version_no_soportada}
use cripto_endevs_comunity.Crypto.Toy.{toy}
use cripto_endevs_comunity.Seed.{MasterSeed}
use cripto_endevs_comunity.Ordered.{CryptoNugget}
use cripto_endevs_comunity.Replay.{ReplayWindowChannel}
use cripto_endevs_comunity.Chrono.{ChronoMeshNode}
use cripto_endevs_comunity.Chrono
use cripto_endevs_comunity.Texts
use cripto_endevs_comunity.Texts.Display.{fmt}
use cripto_endevs_comunity.Texts.Debug.{
  debug_seed, debug_nugget, debug_replay, debug_node, debug_redacted, debug_struct, more_fields,
}

abbrev seed : ℕ → MasterSeed
seed b = record { bytes = replicate 32 b }

abbrev nugget : ℕ → CryptoNugget
nugget b = record {
  tx_key = replicate 32 b;
  rx_key = replicate 32 b;
  tx_seq = 5;
  rx_seq = 6;
  epoch = 7;
  tx_transcript_hash = replicate 32 b;
  rx_transcript_hash = replicate 32 b;
  context = b ∷ [];
  requires_resume_ack = false;
}

abbrev channel : ℕ → ReplayWindowChannel
channel b = record {
  tx_key = replicate 32 b;
  rx_key = replicate 32 b;
  tx_nonce_mask = replicate 12 b;
  rx_nonce_mask = replicate 12 b;
  tx_seq = 4;
  highest_seen = some 9;
  seen_bitmap = b;
  window = 64;
}

abbrev node : ℕ → ChronoMeshNode
node b = Chrono.new toy (replicate 32 b) (b ∷ []) 7 3 1000

debug_redacted_example :
    (debug_seed (seed 1) ≡ debug_seed (seed 2))
    × (debug_nugget (nugget 1) ≡ debug_nugget (nugget 2))
    × (debug_replay (channel 1) ≡ debug_replay (channel 2))
    × (debug_node (node 1) ≡ debug_node (node 2))
unfolding Chrono.new
debug_redacted_example =
    debug_redacted (seed 1) (seed 2) (nugget 1) (nugget 2) (channel 1) (channel 2) (node 1) (node 2)
      refl refl refl refl refl refl refl refl refl refl refl

channel_text :
    debug_replay (channel 1)
    ≡ codes
        "ReplayWindowChannel { tx_key: \"<redacted>\", rx_key: \"<redacted>\", tx_seq: 4, highest_seen: Some(9), window: 64 }"
unfolding debug_replay debug_struct more_fields Texts.decimal
channel_text = refl

error_text : fmt (version_no_soportada 12) ≡ Texts.utf8 "Versión de formato no soportada: 12"
unfolding fmt Texts.decimal
error_text = refl

accent : Texts.utf8 "ó" ≡ 195 ∷ 179 ∷ []
accent = refl

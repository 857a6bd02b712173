-- ===== src/Envelope/Tests.antt =====
-- A message in an envelope.
use cripto_endevs_comunity.Base.{ℕ, ◌≡◌, refl, List, [], ◌∷◌, ◌++◌, replicate}
use cripto_endevs_comunity.Error.{ok}
use cripto_endevs_comunity.Bytes.{be, try_u32}
use cripto_endevs_comunity.Crypto.Toy.{toy, toy-IsLawful, tag, spread, mix}
use cripto_endevs_comunity.Packet.{Packet, build_internal_aad_v2, build_internal_aad_v2_with_epoch}
use cripto_endevs_comunity.Envelope.{
  StatelessEnvelope, seal, sealed, derive_message_key, open_packet, envelope_open-seal,
}

abbrev envelope : StatelessEnvelope
envelope = record { root_key = replicate 32 4 }

abbrev key : List ℕ
key = derive_message_key toy envelope (replicate 12 8)

abbrev internal_aad : List ℕ
internal_aad = (2 ∷ 0 ∷ []) ++ be 8 0

abbrev packet : Packet
packet = record {
  version = 2;
  flags = 0;
  node_id = 0;
  epoch = 0;
  sequence = 0;
  timestamp_ms = 0;
  nonce = replicate 12 8;
  ciphertext = (1 ∷ []) ++ tag key (replicate 12 8) (1 ∷ []) internal_aad;
}

made : seal toy envelope (1 ∷ []) [] (replicate 12 8) ≡ ok packet
unfolding seal sealed derive_message_key build_internal_aad_v2 build_internal_aad_v2_with_epoch
    try_u32 be tag spread mix
made = refl

envelope_open-seal_example : open_packet toy envelope packet [] ≡ ok (1 ∷ [])
envelope_open-seal_example =
    envelope_open-seal toy envelope (1 ∷ []) [] (replicate 12 8) packet toy-IsLawful made

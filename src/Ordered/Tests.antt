-- ===== src/Ordered/Tests.antt =====
-- A conversation of three messages, and one packet of it.
use cripto_endevs_comunity.Base.{
  ℕ, arith, ◌<◌, ◌^◌, ◌≡◌, refl, Bool, true, false, List, [], ◌∷◌, All, replicate,
}
use cripto_endevs_comunity.Error.{Result, ok, err, panic}
use cripto_endevs_comunity.Bytes.{be, try_u32, checked_add}
use cripto_endevs_comunity.Role.{initiator, responder}
use cripto_endevs_comunity.Crypto.Toy.{toy, toy-IsLawful, tag, spread, mix}
use cripto_endevs_comunity.Packet.{Packet, to_bytes, to_base64, build_internal_aad_v2_with_epoch}
use cripto_endevs_comunity.Ordered.{
  CryptoNugget, new_with_context, with_keys, seal_packet, sealed, cifrar_bytes_with_aad,
  cifrar_bytes, descifrar, transcript_hashes,
}
use cripto_endevs_comunity.Ordered.Sync.{InSync, new-InSync}
use cripto_endevs_comunity.Ordered.Text.{descifrar-cifrar_bytes}
use cripto_endevs_comunity.Ordered.Talk.{Message, send_all, meet, IsFaithful, send_all-IsFaithful}

abbrev pub seed : List ℕ
seed = replicate 32 5

abbrev hello : Bool → Message
hello by_first = record {
  by_first = by_first;
  plaintext = 1 ∷ 2 ∷ [];
  aad = [];
  nonce = replicate 12 8;
}

send_all-IsFaithful_example :
    let t =
      send_all toy (meet toy seed [] initiator) (hello true ∷ hello true ∷ hello false ∷ []) in
    All IsFaithful t.got
    × ((transcript_hashes t.first).0 ≡ (transcript_hashes t.second).1)
    × ((transcript_hashes t.second).0 ≡ (transcript_hashes t.first).1)
send_all-IsFaithful_example =
    send_all-IsFaithful toy seed [] initiator (hello true ∷ hello true ∷ hello false ∷ [])
      toy-IsLawful

abbrev pub alice : CryptoNugget
alice = new_with_context toy seed initiator []

abbrev pub bob : CryptoNugget
bob = new_with_context toy seed responder []

abbrev pub or_packet : Result Packet → Packet
or_packet (ok p) = p
or_packet (err e) = record {
  version = 3;
  flags = 0;
  node_id = 1;
  epoch = 1;
  sequence = 1;
  timestamp_ms = 10;
  nonce = [];
  ciphertext = [];
}
or_packet panic = record {
  version = 3;
  flags = 0;
  node_id = 1;
  epoch = 1;
  sequence = 1;
  timestamp_ms = 10;
  nonce = [];
  ciphertext = [];
}

abbrev or_text : Result (List ℕ) → List ℕ
or_text (ok text) = text
or_text (err e) = []
or_text panic = []

abbrev sent : Result (List ℕ) × CryptoNugget
sent = cifrar_bytes toy alice (104 ∷ 105 ∷ []) (replicate 12 8)

sent-text : cifrar_bytes toy alice (104 ∷ 105 ∷ []) (replicate 12 8) ≡ (ok (or_text sent.0), sent.1)
unfolding cifrar_bytes cifrar_bytes_with_aad seal_packet sealed with_keys new_with_context
    build_internal_aad_v2_with_epoch try_u32 checked_add be tag spread mix to_base64 to_bytes
sent-text = refl

alice_epoch : alice.epoch < 2 ^ 64
unfolding new_with_context with_keys
alice_epoch = omega arith

descifrar-cifrar_bytes_example :
    (b : CryptoNugget) × (descifrar toy bob (or_text sent.0) ≡ (ok (104 ∷ 105 ∷ []), b))
    × InSync sent.1 b
    × InSync b sent.1
descifrar-cifrar_bytes_example =
    descifrar-cifrar_bytes toy alice sent.1 bob (104 ∷ 105 ∷ []) (replicate 12 8) (or_text sent.0)
      toy-IsLawful (new-InSync toy seed [] initiator).0 (new-InSync toy seed [] initiator).1
      alice_epoch refl (ground arith) (ground arith) refl sent-text

-- ===== src/Ordered/Snapshot/Tests.antt =====
-- A snapshot of a channel in use.
use cripto_endevs_comunity.Base.{ℕ, ◌≡◌, refl, false, true, List, [], ◌∷◌, replicate, arith}
use cripto_endevs_comunity.Error.{Result, ok, err, panic}
use cripto_endevs_comunity.Bytes.{be, try_u32, checked_add}
use cripto_endevs_comunity.Crypto.Toy.{toy, toy-IsLawful, tag, spread, mix}
use cripto_endevs_comunity.Ordered.{CryptoNugget}
use cripto_endevs_comunity.Ordered.Snapshot.{
  export_state, import_state, seal_state, encode_state_v2, snapshot_aad,
}
use cripto_endevs_comunity.Ordered.Snapshot.RoundTrip.{IsNugget, moved, import_state-export_state}

abbrev nugget : CryptoNugget
nugget = record {
  tx_key = replicate 32 1;
  rx_key = replicate 32 2;
  tx_seq = 5;
  rx_seq = 6;
  epoch = 7;
  tx_transcript_hash = replicate 32 3;
  rx_transcript_hash = replicate 32 4;
  context = 9 ∷ [];
  requires_resume_ack = false;
}

nugget-IsNugget : IsNugget nugget
nugget-IsNugget = record {
  tx_key = refl;
  rx_key = refl;
  tx_seq = omega arith;
  rx_seq = omega arith;
  epoch = omega arith;
  tx_hash = refl;
  rx_hash = refl;
  context = omega arith;
}

abbrev wrap : List ℕ
wrap = replicate 32 5

abbrev or_empty : Result (List ℕ) → List ℕ
or_empty (ok bytes) = bytes
or_empty (err e) = []
or_empty panic = []

abbrev exported : Result (List ℕ) × CryptoNugget
exported = export_state toy nugget wrap (replicate 12 8)

exported-ok :
    export_state toy nugget wrap (replicate 12 8) ≡ (ok (or_empty exported.0), moved nugget)
unfolding export_state seal_state encode_state_v2 snapshot_aad checked_add try_u32 be tag spread mix
exported-ok = refl

import_state-export_state_example :
    (moved nugget ≡ record nugget { epoch = 8 })
    × (import_state toy (or_empty exported.0) wrap (9 ∷ [])
        ≡ ok (record (moved nugget) { requires_resume_ack = true }))
import_state-export_state_example =
    import_state-export_state toy nugget (moved nugget) wrap (replicate 12 8) (or_empty exported.0)
      toy-IsLawful nugget-IsNugget refl exported-ok

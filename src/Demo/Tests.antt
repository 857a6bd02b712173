-- ===== src/Demo/Tests.antt =====
-- The example with some seed and some nonces.
use cripto_endevs_comunity.Base.{ℕ, List, ◌≡◌, refl, ◌∷◌, replicate}
use cripto_endevs_comunity.Error.{ok}
use cripto_endevs_comunity.Crypto.Toy.{toy, toy-IsLawful}
use cripto_endevs_comunity.Demo.{Drawn, main}
use cripto_endevs_comunity.Demo.Stages.{Encrypts}
use cripto_endevs_comunity.Demo.Runs.{main_total}

abbrev drawn : Drawn
drawn = record {
  cp1 = replicate 12 1;
  slot1 = replicate 12 2;
  cp2 = replicate 12 3;
  slot2 = replicate 12 4;
}

toy-Encrypts : Encrypts toy
unfolding Encrypts
toy-Encrypts key nonce msg aad small = (_, refl)

main_total_example :
    (plaintexts : List (List ℕ)) × (main toy (1 ∷ replicate 31 5) drawn ≡ ok plaintexts)
main_total_example =
    main_total toy (1 ∷ replicate 31 5) drawn toy-IsLawful toy-Encrypts refl refl refl refl

-- ===== src/Window/Tests.antt =====
-- A window of four that is offered some numbers, of which two are repeated and one is too old.
use cripto_endevs_comunity.Base.{◌≡◌, [], ◌∷◌, arith}
use cripto_endevs_comunity.Window.{check}
use cripto_endevs_comunity.Window.Meaning.{expected}
use cripto_endevs_comunity.Window.History.{offer_all, fresh, check-refines}

check-refines_example :
    let t = offer_all 4 fresh (3 ∷ 9 ∷ 7 ∷ []) in check t.state 7 4 ≡ expected 7 4 t.taken
check-refines_example = check-refines 4 7 (3 ∷ 9 ∷ 7 ∷ []) (omega arith)

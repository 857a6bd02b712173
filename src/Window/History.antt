-- ===== src/Window/History.antt =====
-- A window that is offered any sequence of numbers, as an attacker or a network would.
use cripto_endevs_comunity.Base.{
  ℕ, ◌≤◌, ◌≡◌, refl, Bool, true, false, List, [], ◌∷◌, arith, Bool-cases, Option-cases, inl, inr,
  if◌then◌else◌,
}
use cripto_endevs_comunity.Error.{Result, ok, err, panic}
use cripto_endevs_comunity.Window.{PeerReplayState, default, check, record_seq}
use cripto_endevs_comunity.Window.Meaning.{
  elem, elem-none, le-newest, newest, Tracks, expected, check-expected, record_seq-Tracks,
}

abbrev pub is_ok : {A : Type 0} → Result A → Bool
is_ok (ok a) = true
is_ok (err e) = false
is_ok panic = false

-- No number occurs twice.
abbrev pub Distinct : List ℕ → Type 0
Distinct [] = Unit
Distinct (x ∷ xs) = (elem x xs ≡ false) × Distinct xs

-- A state of the window, and the numbers that it took, the latest first.
pub record Session : Type 0 where
  pub state : PeerReplayState
  pub taken : List ℕ

abbrev pub fresh : Session
fresh = record { state = default; taken = [] }

-- A receiver checks a number, and records it if the check passes.
unfoldable pub offer : ℕ → Session → ℕ → Session
offer window t seq =
    if is_ok (check t.state seq window)
    then record { state = record_seq t.state seq window; taken = seq ∷ t.taken }
    else t

unfoldable pub offer_all : ℕ → Session → List ℕ → Session
offer_all window t [] = t
offer_all window t (seq ∷ seqs) = offer_all window (offer window t seq) seqs

pub record IsSound (window : ℕ) (t : Session) : Type 0 where
  pub tracks : Tracks t.state window t.taken
  pub distinct : Distinct t.taken

fresh-IsSound : (window : ℕ) → IsSound window fresh
fresh-IsSound window = record {
  tracks = record { highest = refl; places = λ h d e r k. cc };
  distinct = tt;
}

-- A check that passed saw a number that was not taken before.
pub is_new :
    (seq window : ℕ) (seen : List ℕ)
    → is_ok (expected seq window seen) ≡ true
    → elem seq seen ≡ false
is_new seq window seen h = elim (Option-cases (newest seen)) [
  | inl empty ↦ elem-none seen seq empty
  | inr (top, full) ↦ ground (arith, le-newest seen top seq full)
]

offer-IsSound :
    (window seq : ℕ) (t : Session)
    → window ≤ 128
    → IsSound window t
    → IsSound window (offer window t seq)
unfolding offer
offer-IsSound window seq t w s = elim (Bool-cases (is_ok (check t.state seq window))) [
  | inl good ↦ rw good (record {
    tracks = record_seq-Tracks t.state seq window t.taken s.tracks w;
    distinct = (
      is_new seq window t.taken (rw (check-expected t.state seq window t.taken s.tracks w) at good),
      s.distinct,
    );
  })
  | inr bad ↦ rw bad s
]

offer_all-IsSound :
    (window : ℕ) (t : Session) (seqs : List ℕ)
    → window ≤ 128
    → IsSound window t
    → IsSound window (offer_all window t seqs)
unfolding offer_all
offer_all-IsSound window t [] w s = s
offer_all-IsSound window t (seq ∷ seqs) w s =
    offer_all-IsSound window (offer window t seq) seqs w (offer-IsSound window seq t w s)

-- Whatever numbers are offered, in any order and however often, a window of at most 128 takes no
-- number twice.
no_replay :
    (window : ℕ) (seqs : List ℕ) → window ≤ 128 → Distinct (offer_all window fresh seqs).taken
no_replay window seqs w = (offer_all-IsSound window fresh seqs w (fresh-IsSound window)).distinct

-- After any offers the bitmap answers as the list of the numbers taken would: it takes what is above
-- them all, refuses what is `window` or more behind the highest as out of the window, and refuses
-- what lies between as repeated exactly if it was taken.
pub check-refines :
    (window seq : ℕ) (seqs : List ℕ)
    → window ≤ 128
    → let t = offer_all window fresh seqs in check t.state seq window ≡ expected seq window t.taken
check-refines window seq seqs w =
    check-expected (offer_all window fresh seqs).state seq window
      (offer_all window fresh seqs).taken
      (offer_all-IsSound window fresh seqs w (fresh-IsSound window)).tracks w

-- ===== src/Window/Meaning.antt =====
-- What a state of the window says about the sequence numbers recorded so far.
use cripto_endevs_comunity.Base.{
  ℕ, ◌-◌, ◌*◌, ◌%◌, ◌^◌, ◌≤◌, ◌<◌, ◌≡◌, refl, ◌∙◌, ap, sym, Bool, true, false, Option, none, some,
  List, [], ◌∷◌, arith, max, ltb, leb, ◌==◌, if◌then◌else◌, bit_and, Bool-cases, Option-cases,
  lt→ltb, inl, inr,
}
use cripto_endevs_comunity.Base.Bits.{
  bit, bit-lt, bit-bit_or, bit-one, bit-shift, bit-mod, bit-two_pow, bit_and-two_pow, bit_and-mask,
}
use native.Mathlib.Nat.{one-le-pow}
use cripto_endevs_comunity.Error.{Result, ok, err, fuera_de_orden, repetido}
use cripto_endevs_comunity.Window.{
  PeerReplayState, check, advance, record_seq, one_shl, shifted, mask,
}

abbrev pub elem : ℕ → List ℕ → Bool
elem x [] = false
elem x (y ∷ ys) = if y == x then true else elem x ys

abbrev digit : Bool → ℕ
digit true = 1
digit false = 0

-- The highest of the numbers recorded.
abbrev pub newest : List ℕ → Option ℕ
newest [] = none
newest (x ∷ xs) = elim (newest xs) [ none ↦ some x | some h ↦ some (max x h) ]

-- The window state after `seen` was recorded: it has the highest number, and each place inside the
-- window tells whether its number is one of them.
pub record Tracks (s : PeerReplayState) (window : ℕ) (seen : List ℕ) : Type 0 where
  pub highest : s.highest_seen ≡ newest seen
  pub places :
      (h d : ℕ)
      → s.highest_seen ≡ some h
      → d < window
      → d ≤ h
      → bit s.seen_bitmap d ≡ digit (elem (h - d) seen)

pub elem-none : (seen : List ℕ) (x : ℕ) → newest seen ≡ none → elem x seen ≡ false
elem-none [] x e = refl
elem-none (y ∷ ys) x e = ground arith

pub le-newest : (seen : List ℕ) (h x : ℕ) → newest seen ≡ some h → elem x seen ≡ true → x ≤ h
le-newest [] h x e m = cc
le-newest (y ∷ ys) h x e m = elim (Option-cases (newest ys)) [
  | inl empty ↦ ground (arith, elem-none ys x empty)
  | inr (k, full) ↦ ground (arith, le-newest ys k x full)
]

bit-shifted :
    (bitmap shift d : ℕ)
    → 1 ≤ shift
    → d < 128
    → bit (shifted bitmap shift) d
      ≡ (if d == 0 then 1 else if ltb d shift then 0 else bit bitmap (d - shift))
unfolding shifted
bit-shifted bitmap shift d p q = ground (
  arith,
  bit-one d,
  bit-bit_or (bitmap * 2 ^ shift % 2 ^ 128) 1 d,
  bit-mod (bitmap * 2 ^ shift) 128 d,
  bit-shift bitmap shift d,
  bit-lt bitmap (d - shift),
)

pub mask-eq : (window : ℕ) → window ≤ 128 → mask window ≡ 2 ^ window - 1
unfolding mask
mask-eq window h = elim (Bool-cases (leb 128 window)) [
  | inl full ↦ let e : window ≡ 128 = ground arith in rw (full, e)
  | inr part ↦ rw part
]

-- The places of the bitmap after the window moved up by `shift`.
bit-advance :
    (bitmap shift window d : ℕ)
    → 1 ≤ shift
    → window ≤ 128
    → d < window
    → bit (advance bitmap shift window) d
      ≡ (if d == 0 then 1 else if ltb d shift then 0 else bit bitmap (d - shift))
unfolding advance
bit-advance bitmap shift window d p q r =
    rw
      (
        mask-eq window q,
        bit_and-mask (shifted bitmap shift) window,
        bit-mod (shifted bitmap shift) window d,
        lt→ltb d window r,
      )
      (bit-shifted bitmap shift d p (omega arith))

-- The count of packets plays no part.
pub Tracks-same :
    {s t : PeerReplayState} {window : ℕ} {seen : List ℕ}
    → s.highest_seen ≡ t.highest_seen
    → s.seen_bitmap ≡ t.seen_bitmap
    → Tracks s window seen
    → Tracks t window seen
Tracks-same eh eb tr = record {
  highest = sym eh ∙ tr.highest;
  places = λ h d e r k. ap (λ (b : ℕ). bit b d) (sym eb) ∙ tr.places h d (eh ∙ e) r k;
}

-- The test of `check` reads the place.
bit_test : (bitmap d : ℕ) → (bit_and bitmap (one_shl d) == 0) ≡ (bit bitmap d == 0)
bit_test bitmap d = ground (arith, bit_and-two_pow bitmap d, bit-lt bitmap d, one-le-pow d 2)

-- The answer by the numbers recorded alone: a number above them all is taken, and below that every
-- number that is less than `window` behind the highest and was not recorded.
abbrev pub expected : ℕ → ℕ → List ℕ → Result (Unit {0})
expected seq window seen = elim (newest seen) [
  | none ↦ ok tt
  | some highest ↦
      if ltb highest seq
      then ok tt
      else if leb window (highest - seq)
      then err fuera_de_orden
      else if elem seq seen
      then err repetido
      else ok tt
]

module _ (s : PeerReplayState) (seq window : ℕ) (seen : List ℕ) (t : Tracks s window seen) where
  pub check-expected : window ≤ 128 → check s seq window ≡ expected seq window seen
  unfolding check
  check-expected w = elim (Option-cases (newest seen)) [
    | inl empty ↦ ground (arith, t.highest)
    | inr (h, full) ↦
        ground (arith, t.highest, bit_test s.seen_bitmap (h - seq), t.places h (h - seq))
  ]

  -- The highest number after recording.
  highest-record_seq : (record_seq s seq window).highest_seen ≡ newest (seq ∷ seen)
  unfolding record_seq
  highest-record_seq = ground (arith, t.highest)

  -- The places after recording the first number, one above the highest, and one inside the window.
  places_first :
      (d : ℕ)
      → newest seen ≡ none
      → d ≤ seq
      → bit (record_seq s seq window).seen_bitmap d ≡ digit (elem (seq - d) (seq ∷ seen))
  unfolding record_seq
  places_first d empty k = ground (arith, t.highest, bit-one d, elem-none seen (seq - d) empty)

  places_above :
      (h d : ℕ)
      → newest seen ≡ some h
      → h < seq
      → window ≤ 128
      → d < window
      → d ≤ seq
      → bit (record_seq s seq window).seen_bitmap d ≡ digit (elem (seq - d) (seq ∷ seen))
  unfolding record_seq
  places_above h d full above q r k = ground (
    arith,
    t.highest,
    bit-advance s.seen_bitmap (seq - h) window d,
    t.places h (d - (seq - h)),
    le-newest seen h (seq - d) full,
  )

  places_inside :
      (h d : ℕ)
      → newest seen ≡ some h
      → seq ≤ h
      → d < window
      → d ≤ h
      → bit (record_seq s seq window).seen_bitmap d ≡ digit (elem (h - d) (seq ∷ seen))
  unfolding record_seq
  places_inside h d full inside r k = ground (
    arith,
    t.highest,
    bit-bit_or s.seen_bitmap (one_shl (h - seq)) d,
    bit-two_pow (h - seq) d,
    t.places h d,
  )

  -- Recording a number adds it to the numbers that the state tracks.
  pub record_seq-Tracks : window ≤ 128 → Tracks (record_seq s seq window) window (seq ∷ seen)
  record_seq-Tracks q = record {
    highest = highest-record_seq;
    places = λ h d e r k. places h d (sym highest-record_seq ∙ e) r k;
  }
    where
      places :
          (h d : ℕ)
          → newest (seq ∷ seen) ≡ some h
          → d < window
          → d ≤ h
          → bit (record_seq s seq window).seen_bitmap d ≡ digit (elem (h - d) (seq ∷ seen))
      places h d e r k = elim (Option-cases (newest seen)) [
        | inl empty ↦ ground (arith, places_first d empty)
        | inr (g, full) ↦ ground (arith, places_above g d full, places_inside g d full)
      ]

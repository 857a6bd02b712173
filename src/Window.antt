-- ===== src/Window.antt =====
-- The anti-replay window, which is written twice in the source: `PeerReplayState` in
-- src/modes/chrono.rs, and the fields `highest_seen`, `seen_bitmap` and `window` of
-- `ReplayWindowChannel` in src/modes/replay.rs. Place `d` of the bitmap, a `u128`, stands for the
-- sequence number `highest_seen - d`.
pub mod Meaning
pub mod History
mod Tests
use cripto_endevs_comunity.Base.{
  ℕ, ◌+◌, ◌-◌, ◌*◌, ◌%◌, ◌^◌, ◌≤◌, Bool, Option, some, none, ltb, leb, ◌==◌, not, if◌then◌else◌,
  bit_and, bit_or, ◌≢◌, Option-cases, inl, inr, arith,
}
use cripto_endevs_comunity.Error.{
  Result, ok, err, panic, ◌>>=◌, ◌>>◌, reject, fuera_de_orden, repetido,
}
use cripto_endevs_comunity.Bytes.{saturating_add}

abbrev pub max_window : ℕ
max_window = 128

-- `1u128 << d`, where `d` is below 128.
abbrev pub one_shl : ℕ → ℕ
one_shl d = 2 ^ d

-- `1u128 << d`: with overflow checks a `d` from 128 on panics.
abbrev pub checked_shl : ℕ → Result ℕ
checked_shl d = if ltb d 128 then ok (one_shl d) else panic

-- `PeerReplayState`
pub record PeerReplayState : Type 0 where
  pub highest_seen : Option ℕ
  pub seen_bitmap : ℕ
  pub received_count : ℕ

abbrev pub default : PeerReplayState
default = record { highest_seen = none; seen_bitmap = 0; received_count = 0 }

-- `check`, once `highest_seen` is `Some(highest)`.
check_against : ℕ → ℕ → ℕ → ℕ → Result (Unit {0})
check_against bitmap highest seq window = if ltb highest seq then ok tt else (do
  let delta = highest - seq
  reject (leb window delta) fuera_de_orden
  place ← checked_shl delta
  reject (not (bit_and bitmap place == 0)) repetido)

-- `PeerReplayState::check`
unfoldable pub check : PeerReplayState → ℕ → ℕ → Result (Unit {0})
unfolding check_against
check s seq window = elim s.highest_seen [
  | none ↦ ok tt
  | some highest ↦ check_against s.seen_bitmap highest seq window
]

-- The bitmap moved up to a new highest number: the shift drops what leaves 128 bits.
pub shifted : ℕ → ℕ → ℕ
shifted bitmap shift = if leb 128 shift then 1 else bit_or (bitmap * 2 ^ shift % 2 ^ 128) 1

-- The `mask` of `record`.
pub mask : ℕ → ℕ
mask window = if leb 128 window then 2 ^ 128 - 1 else one_shl window - 1

-- The new bitmap of the arm `Some(highest) if seq > highest`.
unfoldable pub advance : ℕ → ℕ → ℕ → ℕ
unfolding shifted mask
advance bitmap shift window = bit_and (shifted bitmap shift) (mask window)

-- `PeerReplayState::record`, once `highest_seen` is `Some(highest)`: the arm of a new highest number,
-- and the arm of a number inside the window. The source calls it only for a number that `check` let
-- through, so that the shift of the second arm is one that `check` made.
record_against : PeerReplayState → ℕ → ℕ → ℕ → PeerReplayState
record_against s highest seq window =
    if ltb highest seq
    then record s {
      highest_seen = some seq;
      seen_bitmap = advance s.seen_bitmap (seq - highest) window;
    }
    else record s { seen_bitmap = bit_or s.seen_bitmap (one_shl (highest - seq)) }

-- `PeerReplayState::record`
unfoldable pub record_seq : PeerReplayState → ℕ → ℕ → PeerReplayState
unfolding record_against saturating_add
record_seq s seq window =
    let counted : PeerReplayState = record s {
      received_count = saturating_add s.received_count 1;
    } in
    elim s.highest_seen [
      | none ↦ record counted { highest_seen = some seq; seen_bitmap = 1 }
      | some highest ↦ record_against counted highest seq window
    ]

pub check-ne-panic :
    (s : PeerReplayState) (seq window : ℕ) → window ≤ 128 → check s seq window ≢ panic
unfolding check check_against
check-ne-panic s seq window w h = elim (Option-cases s.highest_seen) [
  | inl nothing ↦ ground arith
  | inr (highest, e) ↦ ground arith
]

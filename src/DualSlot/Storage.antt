-- ===== src/DualSlot/Storage.antt =====
-- The bytes of the container, whole and cut short.
use cripto_endevs_comunity.Base.{
  ℕ, zero, suc, ltb→lt, ◌+◌, ◌-◌, ◌^◌, ◌≤◌, ◌<◌, ◌≡◌, refl, sym, ap, ◌∙◌, List, [], ◌∷◌, ◌++◌,
  length, ltb, if◌then◌else◌, arith, inl, inr, Bool-cases, ltb→le, le→ltb, lt→ltb, length-take,
  take, take-append_ge, append-nil,
}
use cripto_endevs_comunity.Error.{ok}
use cripto_endevs_comunity.Bytes.{be, slice, read_be, checked_add, try_u32}
use cripto_endevs_comunity.Bytes.BigEndian.{length-be}
use cripto_endevs_comunity.Bytes.Slices.{flat, total, slice_at, read_be_at, length-flat}
use cripto_endevs_comunity.DualSlot.{
  DualSlotContainer, to_bytes, from_bytes, from_bytes_b, magic_dual,
}

-- The bounds of the Rust types, and slots whose lengths `to_bytes` can write.
pub record IsContainer (d : DualSlotContainer) : Type 0 where
  pub generation_a : d.generation_a < 2 ^ 64
  pub generation_b : d.generation_b < 2 ^ 64
  pub slot_a : length d.slot_a < 2 ^ 32
  pub slot_b : length d.slot_b < 2 ^ 32

-- The pieces of the file up to the end of slot A, and those of slot B.
abbrev head_pieces : DualSlotContainer → List (List ℕ)
head_pieces d = magic_dual ∷ be 8 d.generation_a ∷ be 4 (length d.slot_a) ∷ d.slot_a ∷ []

abbrev tail_bytes : DualSlotContainer → List ℕ
tail_bytes d = be 8 d.generation_b ++ (be 4 (length d.slot_b) ++ d.slot_b)

module _ (d : DualSlotContainer) (valid : IsContainer d) where
  abbrev len_a : ℕ
  len_a = length d.slot_a

  to_bytes-flat : to_bytes d ≡ ok (flat (head_pieces d) (tail_bytes d))
  unfolding to_bytes try_u32
  to_bytes-flat =
      rw
        (
          lt→ltb (length d.slot_a) (2 ^ 32) valid.slot_a,
          lt→ltb (length d.slot_b) (2 ^ 32) valid.slot_b,
        )
        refl

  total-head : total (head_pieces d) ≡ 16 + len_a
  total-head = omega (
    arith,
    length-flat (head_pieces d) [],
    length-be 8 d.generation_a,
    length-be 4 (length d.slot_a),
  )

  -- Whatever follows slot A, it is read, and the rest is left to `from_bytes_b`.
  from_bytes-head :
      (rest : List ℕ)
      → from_bytes (flat (head_pieces d) rest)
        ≡ from_bytes_b (flat (head_pieces d) rest) d.generation_a (16 + len_a) d.slot_a
  unfolding from_bytes checked_add
  from_bytes-head rest =
      let whole : List ℕ = flat (head_pieces d) rest in
      let long : length whole ≡ 16 + len_a + length rest =
        omega (arith, length-flat (head_pieces d) rest, total-head) in
      let small : 16 + len_a < 2 ^ 64 = omega (arith, valid.slot_a) in
      rw
        (
          le→ltb (length whole) 16 (omega arith),
          slice_at [] 0 4 magic_dual (be 8 d.generation_a ++ (be 4 len_a ++ (d.slot_a ++ rest)))
              refl refl,
          read_be_at (magic_dual ∷ []) 8 4 d.generation_a (be 4 len_a ++ (d.slot_a ++ rest)) refl
              valid.generation_a,
          read_be_at (magic_dual ∷ be 8 d.generation_a ∷ []) 4 12 len_a (d.slot_a ++ rest)
              (omega (arith, length-be 8 d.generation_a)) valid.slot_a,
          lt→ltb (16 + len_a) (2 ^ 64) small,
          le→ltb (length whole) (16 + len_a) (omega arith),
          slice_at (magic_dual ∷ be 8 d.generation_a ∷ be 4 len_a ∷ []) 16 (16 + len_a) d.slot_a
              rest (omega (arith, length-be 8 d.generation_a, length-be 4 len_a)) refl,
        )
        refl

  -- Slot B is missing, has a header but not all its bytes, or is complete.
  module _ (rest : List ℕ) where
    abbrev whole : List ℕ
    whole = flat (head_pieces d) rest

    length-whole : length whole ≡ 16 + len_a + length rest
    length-whole = omega (arith, length-flat (head_pieces d) rest, total-head)

    from_bytes_b-missing :
        length rest < 12
        → from_bytes_b whole d.generation_a (16 + len_a) d.slot_a
          ≡ ok (record {
            generation_a = d.generation_a;
            slot_a = d.slot_a;
            generation_b = 0;
            slot_b = [];
          })
    unfolding from_bytes_b
    from_bytes_b-missing short = ground (arith, length-whole)

  module _ (rest : List ℕ) where
    abbrev with_header : List ℕ
    with_header = be 8 d.generation_b ++ (be 4 (length d.slot_b) ++ rest)

    length-with_header : length (whole with_header) ≡ 28 + len_a + length rest
    length-with_header = omega (
      arith,
      length-whole with_header,
      length-flat (be 8 d.generation_b ∷ be 4 (length d.slot_b) ∷ []) rest,
      length-be 8 d.generation_b,
      length-be 4 (length d.slot_b),
    )

    generation_b-read : read_be 8 (16 + len_a) (whole with_header) ≡ ok d.generation_b
    generation_b-read =
        read_be_at (head_pieces d) 8 (16 + len_a) d.generation_b (be 4 (length d.slot_b) ++ rest)
          total-head valid.generation_b

    len_b-read : read_be 4 (16 + len_a + 8) (whole with_header) ≡ ok (length d.slot_b)
    len_b-read =
        read_be_at
          (magic_dual ∷ be 8 d.generation_a ∷ be 4 len_a ∷ d.slot_a ∷ be 8 d.generation_b ∷ []) 4
          (16 + len_a + 8) (length d.slot_b) rest
          (omega (arith, total-head, length-be 8 d.generation_b)) valid.slot_b

    from_bytes_b-partial :
        length rest < length d.slot_b
        → from_bytes_b (whole with_header) d.generation_a (16 + len_a) d.slot_a
          ≡ ok (record d { slot_b = [] })
    unfolding from_bytes_b checked_add
    from_bytes_b-partial short =
        let f = valid.slot_a in
        let f' = valid.slot_b in ground (arith, length-with_header, generation_b-read, len_b-read)

  from_bytes_b_complete :
      from_bytes_b (whole (with_header d.slot_b)) d.generation_a (16 + len_a) d.slot_a ≡ ok d
  unfolding from_bytes_b checked_add
  from_bytes_b_complete =
      let n : ℕ = length d.slot_b in
      let slot_b-read : slice (16 + len_a + 12) (16 + len_a + 12 + n) (whole (with_header d.slot_b))
          ≡ ok d.slot_b =
        rw append-nil at (
          slice_at
            (magic_dual
              ∷ be 8 d.generation_a
              ∷ be 4 len_a
              ∷ d.slot_a
              ∷ be 8 d.generation_b
              ∷ be 4 n
              ∷ [])
            (16 + len_a + 12) (16 + len_a + 12 + n) d.slot_b []
            (omega (arith, total-head, length-be 8 d.generation_b, length-be 4 n)) refl) in
      let f = valid.slot_a in
      let f' = valid.slot_b in
      ground (
        arith,
        length-with_header d.slot_b,
        generation_b-read d.slot_b,
        len_b-read d.slot_b,
        slot_b-read,
      )

take_all : (k : ℕ) (xs : List ℕ) → length xs ≤ k → take k xs ≡ xs
take_all zero [] h = refl
take_all (suc k) [] h = refl
take_all zero (x ∷ xs) h = absurd (omega arith)
take_all (suc k) (x ∷ xs) h = ap (◌∷◌ x) (take_all k xs (omega arith))

take-flat :
    (pieces : List (List ℕ)) (k : ℕ) (rest : List ℕ)
    → total pieces ≤ k
    → take k (flat pieces rest) ≡ flat pieces (take (k - total pieces) rest)
take-flat [] k rest h = let e : k - 0 ≡ k = omega arith in rw e refl
take-flat (x ∷ xs) k rest h =
    let e : k - length x - total xs ≡ k - (length x + total xs) = omega arith in
    let rec = take-flat xs (k - length x) rest (omega arith) in
    take-append_ge x (flat xs rest) k (omega arith) ∙ ap (λ ys. x ++ ys) (rw e at rec)

-- What a file holds of a container when its first `k` bytes were written.
unfoldable pub written : DualSlotContainer → (size k : ℕ) → DualSlotContainer
written d size k = record {
  generation_a = d.generation_a;
  slot_a = d.slot_a;
  generation_b = if ltb k (28 + length d.slot_a) then 0 else d.generation_b;
  slot_b = if ltb k size then [] else d.slot_b;
}

module _ (d : DualSlotContainer) (valid : IsContainer d) where
  take-tail :
      (m : ℕ) → 12 ≤ m → take m (tail_bytes d) ≡ with_header d valid (take (m - 12) d.slot_b)
  take-tail m h =
      let parts : List (List ℕ) = be 8 d.generation_b ∷ be 4 (length d.slot_b) ∷ [] in
      let header : total parts ≡ 12 =
        omega (arith, length-be 8 d.generation_b, length-be 4 (length d.slot_b)) in
      rw header at (take-flat parts m d.slot_b (omega (arith, header)))

  module _ (m k n : ℕ) (place : k ≡ 16 + length d.slot_a + m)
      (size : n ≡ 28 + length d.slot_a + length d.slot_b) where
    written-missing :
        m < 12
        → written d n k ≡ record {
          generation_a = d.generation_a;
          slot_a = d.slot_a;
          generation_b = 0;
          slot_b = [];
        }
    unfolding written
    written-missing h = ground arith

    written-partial : 12 ≤ m → m < 12 + length d.slot_b → written d n k ≡ record d { slot_b = [] }
    unfolding written
    written-partial h h' = ground arith

    written_complete : 12 + length d.slot_b ≤ m → written d n k ≡ d
    unfolding written
    written_complete h = ground arith

    from_bytes_b-take :
        from_bytes_b
          (whole d valid (take m (tail_bytes d)))
          d.generation_a
          (16 + length d.slot_a)
          d.slot_a
        ≡ ok (written d n k)
    from_bytes_b-take = elim (Bool-cases (ltb m 12)) [
      | inl short ↦
          from_bytes_b-missing d valid (take m (tail_bytes d))
            (ground (arith, length-take m (tail_bytes d)))
          ∙ sym (ap ok (written-missing (ltb→lt m 12 short)))
      | inr more ↦ elim (Bool-cases (ltb m (12 + length d.slot_b))) [
        | inl cut ↦
            rw (take-tail m (ltb→le m 12 more), written-partial (ltb→le m 12 more) (ltb→lt m _ cut))
              (from_bytes_b-partial d valid (take (m - 12) d.slot_b)
                (ground (arith, length-take (m - 12) d.slot_b)))
        | inr all ↦
            rw
              (
                take-tail m (ltb→le m 12 more),
                take_all (m - 12) d.slot_b (ground arith),
                written_complete (ltb→le m _ all),
              )
              (from_bytes_b_complete d valid)
      ]
    ]

  from_bytes-take-flat :
      (k : ℕ)
      → 16 + length d.slot_a ≤ k
      → from_bytes (take k (flat (head_pieces d) (tail_bytes d)))
        ≡ ok (written d (length (flat (head_pieces d) (tail_bytes d))) k)
  from_bytes-take-flat k h =
      let e : take k (flat (head_pieces d) (tail_bytes d))
          ≡ flat (head_pieces d) (take (k - (16 + length d.slot_a)) (tail_bytes d)) =
        rw (total-head d valid) at
          (take-flat (head_pieces d) k (tail_bytes d) (omega (arith, total-head d valid))) in
      rw (e, from_bytes-head d valid (take (k - (16 + length d.slot_a)) (tail_bytes d)))
        (from_bytes_b-take (k - (16 + length d.slot_a)) k _ (omega arith)
          (length-with_header d valid d.slot_b))

-- A file that was written up to any place behind slot A gives slot A back as it was committed; of
-- slot B, the generation if its header was written, and the bytes if all of them were.
pub from_bytes-take :
    (d : DualSlotContainer) (k : ℕ) (bytes : List ℕ)
    → IsContainer d
    → to_bytes d ≡ ok bytes
    → 16 + length d.slot_a ≤ k
    → from_bytes (take k bytes) ≡ ok (written d (length bytes) k)
from_bytes-take d k bytes valid e h =
    let same : bytes ≡ flat (head_pieces d) (tail_bytes d) = cc (to_bytes-flat d valid) in
    rw same (from_bytes-take-flat d valid k h)

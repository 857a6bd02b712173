-- ===== src/Wal/Frames.antt =====
-- What one round of the scan does on a frame that the journal wrote, and on a frame cut short.
use cripto_endevs_comunity.Base.{
  ℕ, ◌+◌, ◌^◌, ◌≤◌, ◌<◌, ◌≡◌, ◌≢◌, refl, true, inl, inr, Bool-cases, List, [], ◌∷◌, ◌++◌, length,
  arith, append_assoc, length-append,
}
use cripto_endevs_comunity.Error.{ok, err, integridad_contexto_corrupta}
use cripto_endevs_comunity.Bytes.{be, slice, read_be, checked_add}
use cripto_endevs_comunity.Bytes.BigEndian.{length-be}
use cripto_endevs_comunity.Bytes.Slices.{flat, slice_at, read_be_at, length-flat}
use cripto_endevs_comunity.Bytes.Compare.{diff_bytes_self, diff_bytes-zero}
use cripto_endevs_comunity.Crypto.{Crypto, IsLawful}
use cripto_endevs_comunity.Packet.{Packet, from_bytes}
use cripto_endevs_comunity.Wal.{
  complete, truncated, scan_header, scan_frame, constant_time_eq_32, compute_frame_sha256,
  frame_bytes, magic_wal_frame,
}

pub constant_time_eq_32_self : (a : List ℕ) → length a ≡ 32 → constant_time_eq_32 a a ≡ true
unfolding constant_time_eq_32
constant_time_eq_32_self a h = rw (h, diff_bytes_self a) refl

-- Against an array of 32 bytes the comparison in constant time is equality.
pub constant_time_eq_32_sound :
    (a b : List ℕ) → length b ≡ 32 → constant_time_eq_32 a b ≡ true → a ≡ b
unfolding constant_time_eq_32
constant_time_eq_32_sound a b hb h = ground (arith, diff_bytes-zero a b)

-- The bytes of a journal at a frame, taken apart.
module _ (before rest : List ℕ) (n : ℕ) (fits : n < 2 ^ 32) where
  abbrev at_frame : List ℕ
  at_frame = before ++ (magic_wal_frame ++ (be 4 n ++ rest))

  length-at_frame : length at_frame ≡ length before + (8 + length rest)
  length-at_frame =
      omega (arith, length-flat (before ∷ magic_wal_frame ∷ be 4 n ∷ []) rest, length-be 4 n)

  magic-at_frame : slice (length before) (length before + 4) at_frame ≡ ok magic_wal_frame
  magic-at_frame =
      slice_at (before ∷ []) (length before) (length before + 4) magic_wal_frame (be 4 n ++ rest)
        (omega arith) refl

  pkt_len-at_frame : read_be 4 (length before + 4) at_frame ≡ ok n
  pkt_len-at_frame =
      read_be_at (before ∷ magic_wal_frame ∷ []) 4 (length before + 4) n rest (omega arith) fits

  -- A header that is followed by enough bytes for its frame.
  pub scan_header-complete :
      64 + n ≤ length rest → scan_header at_frame (length before) ≡ ok (complete n)
  unfolding scan_header checked_add
  scan_header-complete enough = ground (arith, length-at_frame, magic-at_frame, pkt_len-at_frame)

  -- A header that is followed by too few bytes for its frame.
  pub scan_header-short :
      64 ≤ length rest → length rest < 64 + n → scan_header at_frame (length before) ≡ ok truncated
  unfolding scan_header checked_add
  scan_header-short some_more short =
      ground (arith, length-at_frame, magic-at_frame, pkt_len-at_frame)

-- Fewer than 72 bytes are no header.
pub scan_header_tiny :
    (before tail : List ℕ)
    → length tail < 72
    → scan_header (before ++ tail) (length before) ≡ ok truncated
unfolding scan_header
scan_header_tiny before tail h = ground (arith, length-append before tail)

module _ (c : Crypto) (lawful : IsLawful c) (before rest head pkt : List ℕ) where
  pub length-compute_frame_sha256 : length (compute_frame_sha256 c head pkt) ≡ 32
  unfolding compute_frame_sha256
  length-compute_frame_sha256 = lawful.length-sha256 _

  frame_apart :
      before ++ (frame_bytes c head pkt (length pkt) ++ rest)
      ≡ before
        ++ (magic_wal_frame
            ++ (be 4 (length pkt) ++ (head ++ (pkt ++ (compute_frame_sha256 c head pkt ++ rest)))))
  unfolding frame_bytes
  frame_apart = simp append_assoc

  abbrev framed : List ℕ
  framed = before ++ (frame_bytes c head pkt (length pkt) ++ rest)

  -- The three parts that a round reads of a frame.
  slices-framed :
      let o : ℕ = length before in
      let n : ℕ = length pkt in
      length head ≡ 32
      → (slice (o + 8) (o + 40) framed ≡ ok head)
        × (slice (o + 40) (o + 40 + n) framed ≡ ok pkt)
        × (slice (o + 40 + n) (o + (72 + n)) framed ≡ ok (compute_frame_sha256 c head pkt))
  slices-framed size =
      let o : ℕ = length before in
      let n : ℕ = length pkt in
      let sha : List ℕ = compute_frame_sha256 c head pkt in
      let sha_size : length sha ≡ 32 = length-compute_frame_sha256 in
      let l1 : List (List ℕ) = before ∷ magic_wal_frame ∷ be 4 n ∷ [] in
      let l2 : List (List ℕ) = before ∷ magic_wal_frame ∷ be 4 n ∷ head ∷ [] in
      let l3 : List (List ℕ) = before ∷ magic_wal_frame ∷ be 4 n ∷ head ∷ pkt ∷ [] in
      rw frame_apart (
        slice_at l1 (o + 8) (o + 40) head (pkt ++ (sha ++ rest)) (omega (arith, length-be 4 n))
            (omega arith),
        slice_at l2 (o + 40) (o + 40 + n) pkt (sha ++ rest) (omega (arith, length-be 4 n)) refl,
        slice_at l3 (o + 40 + n) (o + (72 + n)) sha rest (omega (arith, length-be 4 n))
            (omega arith),
      )

  -- A frame of the journal behind its head: the round accepts it and moves to its end.
  pub scan_frame-frame_bytes :
      (packets : List Packet) (p : Packet)
      → length head ≡ 32
      → from_bytes pkt ≡ ok p
      → scan_frame c
          (before ++ (frame_bytes c head pkt (length pkt) ++ rest))
          (record { offset = length before; expected_prev_sha = head; packets = packets })
          (length pkt)
        ≡ ok (record {
          offset = length before + (72 + length pkt);
          expected_prev_sha = compute_frame_sha256 c head pkt;
          packets = packets ++ (p ∷ []);
        })
  unfolding scan_frame
  scan_frame-frame_bytes packets p size parsed =
      let (prev, body, stored) = slices-framed size in
      rw
        (
          prev,
          body,
          stored,
          constant_time_eq_32_self head size,
          constant_time_eq_32_self _ length-compute_frame_sha256,
          parsed,
        )
        refl

  -- A frame behind another head than the expected: the round refuses it.
  pub scan_frame_apart :
      (packets : List Packet) (expected : List ℕ)
      → length head ≡ 32
      → length expected ≡ 32
      → head ≢ expected
      → scan_frame c
          (before ++ (frame_bytes c head pkt (length pkt) ++ rest))
          (record { offset = length before; expected_prev_sha = expected; packets = packets })
          (length pkt)
        ≡ err integridad_contexto_corrupta
  unfolding scan_frame
  scan_frame_apart packets expected size expected_size other =
      let (prev, body, stored) = slices-framed size in
      elim (Bool-cases (constant_time_eq_32 head expected)) [
        | inl same ↦ absurd (other (constant_time_eq_32_sound head expected expected_size same))
        | inr apart ↦ rw (prev, body, stored, apart) refl
      ]

  pub scan_header-frame_bytes :
      length head ≡ 32
      → length pkt < 2 ^ 32
      → scan_header (before ++ (frame_bytes c head pkt (length pkt) ++ rest)) (length before)
        ≡ ok (complete (length pkt))
  scan_header-frame_bytes size fits = rw frame_apart (
      scan_header-complete before (flat (head ∷ pkt ∷ compute_frame_sha256 c head pkt ∷ []) rest)
        (length pkt) fits
        (omega (
          arith,
          length-flat (head ∷ pkt ∷ compute_frame_sha256 c head pkt ∷ []) rest,
          length-compute_frame_sha256,
          size,
        )))

  pub length-frame_bytes :
      length head ≡ 32 → length (frame_bytes c head pkt (length pkt)) ≡ 72 + length pkt
  unfolding frame_bytes
  length-frame_bytes size = omega (
    arith,
    length-flat (magic_wal_frame ∷ be 4 (length pkt) ∷ head ∷ pkt ∷ [])
        (compute_frame_sha256 c head pkt),
    length-be 4 (length pkt),
    length-compute_frame_sha256,
    size,
  )

-- ===== src/Wal/Recovery.antt =====
-- Recovery of a journal after a power cut.
use mathlib.Core.List.{map}
use cripto_endevs_comunity.Base.{
  ℕ, zero, suc, ◌+◌, ◌-◌, ◌^◌, ◌≤◌, ◌<◌, ◌≡◌, refl, ap, Bool, true, false, List, [], ◌∷◌, ◌++◌,
  length, arith, ltb, ◌==◌, length-append, take, All, not, ◌⊎◌, inl, inr, length-take,
  take-append_ge, Bool-cases,
}
use cripto_endevs_comunity.Error.{ok}
use cripto_endevs_comunity.Bytes.{be}
use cripto_endevs_comunity.Bytes.BigEndian.{length-be}
use cripto_endevs_comunity.Bytes.Slices.{length-flat}
use cripto_endevs_comunity.Crypto.{Crypto, IsLawful}
use cripto_endevs_comunity.Packet.{Packet, to_bytes}
use cripto_endevs_comunity.Packet.RoundTrip.{carried}
use cripto_endevs_comunity.Wal.{
  Scan, scan, report, recover_from_bytes, frame_bytes, encode_append_frame, magic_wal_frame, new,
}
use cripto_endevs_comunity.Chrono.{zeros_32}
use cripto_endevs_comunity.Wal.Log.{
  IsStorable, append_all, next_head, frame_of, log_bytes, last_head, scan_torn, scan_end,
  scan-log_bytes, log_is_long, append_all-log, encode_append_frame-frame, last_head-length,
}
use cripto_endevs_comunity.Wal.Frames.{
  scan_header-short, scan_header_tiny, length-frame_bytes, length-compute_frame_sha256,
}

-- What follows the last complete frame: nothing, or a frame of which the last part was not written.
abbrev Torn : List ℕ → Type 0
Torn tail =
    (length tail < 72)
    ⊎ ((n : ℕ) × (rest : List ℕ) × (tail ≡ magic_wal_frame ++ (be 4 n ++ rest))
        × (n < 2 ^ 32)
        × (64 ≤ length rest)
        × (length rest < 64 + n))

abbrev is_empty : List ℕ → Bool
is_empty [] = true
is_empty (x ∷ xs) = false

module _ (c : Crypto) where
  scan-Torn :
      (before tail head : List ℕ) (packets : List Packet) (fuel : ℕ)
      → Torn tail
      → let s : Scan = record {
        offset = length before;
        expected_prev_sha = head;
        packets = packets;
      } in
        scan c (before ++ tail) (suc fuel) s ≡ ok (report s (not (is_empty tail)))
  scan-Torn before [] head packets fuel t =
      scan_end c (before ++ []) fuel _ (omega (arith, length-append before []))
  scan-Torn before (x ∷ xs) head packets fuel (inl short) =
      scan_torn c (before ++ x ∷ xs) fuel _ (omega (arith, length-append before (x ∷ xs)))
        (scan_header_tiny before (x ∷ xs) short)
  scan-Torn before (x ∷ xs) head packets fuel (inr (n, rest, e, fits, more, cut)) =
      scan_torn c (before ++ x ∷ xs) fuel _ (omega (arith, length-append before (x ∷ xs)))
        (rw e (scan_header-short before rest n fits more cut))

  module _ (lawful : IsLawful c) (tail : List ℕ) (torn : Torn tail) where
    pub start-scan :
        (ps : List Packet)
        → All IsStorable ps
        → recover_from_bytes c (log_bytes c zeros_32 ps ++ tail)
          ≡ ok (record {
            packets = map carried ps;
            head_chain_sha256 = last_head c zeros_32 ps;
            valid_bytes_len = length (log_bytes c zeros_32 ps);
            had_truncated_tail = not (is_empty tail);
          })
    unfolding recover_from_bytes
    start-scan ps good =
        let size : length zeros_32 ≡ 32 = length-be 32 0 in
        let log : List ℕ = log_bytes c zeros_32 ps in
        let left : ℕ = length (log ++ tail) - length ps in
        let long : length ps ≤ length (log ++ tail) =
          omega (arith, length-append log tail, log_is_long c lawful zeros_32 ps size) in
        let fuel : suc (length (log ++ tail)) ≡ length ps + suc left = omega arith in
        rw (fuel, scan-log_bytes c lawful ps [] tail zeros_32 [] (suc left) good size)
          (scan-Torn log tail (last_head c zeros_32 ps) (map carried ps) left torn)

  module _ (lawful : IsLawful c) where
    cut_at_8 :
        (n : ℕ) (rest : List ℕ) (k : ℕ)
        → 8 ≤ k
        → take k (magic_wal_frame ++ (be 4 n ++ rest))
          ≡ magic_wal_frame ++ (be 4 n ++ take (k - 8) rest)
    cut_at_8 n rest k h =
        let size : length (magic_wal_frame ++ be 4 n) ≡ 8 =
          omega (arith, length-append magic_wal_frame (be 4 n), length-be 4 n) in
        rw size at (take-append_ge {A = ℕ} (magic_wal_frame ++ be 4 n) rest k (omega (arith, size)))

    -- A frame of which some last part was not written.
    take-frame-Torn :
        (head : List ℕ) (p : Packet) (k : ℕ)
        → length head ≡ 32
        → IsStorable p
        → k < 72 + length (to_bytes p)
        → Torn (take k (frame_of c head p))
    unfolding frame_bytes
    take-frame-Torn head p k size good short =
        let n : ℕ = length (to_bytes p) in
        let rest : List ℕ = head ++ (to_bytes p ++ next_head c head p) in
        let long : length rest ≡ 64 + n = omega (
          arith,
          length-flat (head ∷ to_bytes p ∷ []) (next_head c head p),
          length-compute_frame_sha256 c lawful [] [] head (to_bytes p),
          size,
        ) in
        elim (Bool-cases (ltb k 72)) [
          | inl tiny ↦ inl (ground (arith, length-take k (frame_of c head p)))
          | inr more ↦ inr (
            n,
            take (k - 8) rest,
            cut_at_8 n rest k (ground arith),
            good.fits,
            ground (arith, length-take (k - 8) rest),
            ground (arith, length-take (k - 8) rest),
          )
        ]

    not-is_empty-take :
        (k : ℕ) (xs : List ℕ) → 0 < length xs → not (is_empty (take k xs)) ≡ not (k == 0)
    not-is_empty-take zero xs h = refl
    not-is_empty-take (suc k) [] h = absurd (omega arith)
    not-is_empty-take (suc k) (x ∷ xs) h = ground arith

    -- A new journal to which packets were appended, and then, of one more frame, the first `k` bytes and
    -- not the last, where the packets have the versions 1 to 3, fields in the ranges of their Rust
    -- types, a ciphertext with room for its tag and less than 2^32 bytes each: recovery returns these
    -- packets in their order, each with the fields that its version carries and zeros for the others
    -- (version 3 carries all), the head of the chain after them and the length of their frames, and
    -- reports a truncated tail exactly if `k` is not 0.
    pub recover_from_bytes-append_all :
        (ps : List Packet) (p : Packet) (k : ℕ)
        → All IsStorable ps
        → IsStorable p
        → k < 72 + length (to_bytes p)
        → let (frames, j) = append_all c new ps in
          let (frame, _) = encode_append_frame c j p in
          (log : List ℕ) × (next : List ℕ) × (frames ≡ ok log)
          × (frame ≡ ok next)
          × (recover_from_bytes c (log ++ take k next)
              ≡ ok (record {
                packets = map carried ps;
                head_chain_sha256 = j.head_sha256;
                valid_bytes_len = length log;
                had_truncated_tail = not (k == 0);
              }))
    recover_from_bytes-append_all ps p k good next_good short =
        let (log, last) = append_all-log c lawful new ps good in
        let size : length zeros_32 ≡ 32 = length-be 32 0 in
        let size' = last_head-length c lawful zeros_32 ps size in
        let frame : List ℕ = frame_of c (last_head c zeros_32 ps) p in
        let long : 0 < length frame =
          omega (
            arith,
            length-frame_bytes c lawful [] [] (last_head c zeros_32 ps) (to_bytes p) size',
          ) in
        (
          log_bytes c zeros_32 ps,
          frame,
          log,
          rw (← last) (
              ap (λ r. r.0)
                (encode_append_frame-frame c lawful (append_all c new ps).1 p next_good.fits)),
          rw (last, ← not-is_empty-take k frame long)
              (start-scan lawful (take k frame)
                (take-frame-Torn (last_head c zeros_32 ps) p k size' next_good short) ps good),
        )

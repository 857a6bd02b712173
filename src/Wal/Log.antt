-- ===== src/Wal/Log.antt =====
-- The frames of some packets, one behind the other, as a journal writes them and the scan reads them.
use mathlib.Core.List.{map}
use cripto_endevs_comunity.Base.{
  ℕ, suc, ◌+◌, ◌^◌, ◌≤◌, ◌<◌, ◌≡◌, refl, ap, ◌∙◌, true, false, List, [], ◌∷◌, ◌++◌, length, arith,
  ltb, le→ltb, lt→ltb, append-nil, append_assoc, length-append, All, inl, inr, Bool-cases,
}
use cripto_endevs_comunity.Error.{Error, Result, ok, ◌>>=◌}
use cripto_endevs_comunity.Bytes.{try_u32, saturating_add}
use cripto_endevs_comunity.Crypto.{Crypto, IsLawful}
use cripto_endevs_comunity.Packet.{Packet, IsPacket, to_bytes}
use cripto_endevs_comunity.Packet.RoundTrip.{carried, IsKnown, from_bytes-to_bytes}
use cripto_endevs_comunity.Wal.{
  ChronoWalJournal, Scan, complete, truncated, scan_header, scan_frame, scan, report,
  compute_frame_sha256, frame_bytes, encode_append_frame,
}
use cripto_endevs_comunity.Wal.Frames.{
  scan_frame-frame_bytes, scan_header-frame_bytes, length-frame_bytes, length-compute_frame_sha256,
}

-- A packet that fits a frame and that `from_bytes` accepts again.
pub record IsStorable (p : Packet) : Type 0 where
  pub valid : IsPacket p
  pub known : IsKnown p.version
  pub tagged : 16 ≤ length p.ciphertext
  pub fits : length (to_bytes p) < 2 ^ 32

-- The frames that a journal returns for some packets, one behind the other, and the journal after.
unfoldable pub append_all :
    Crypto → ChronoWalJournal → List Packet → Result (List ℕ) × ChronoWalJournal
append_all c j [] = (ok [], j)
append_all c j (p ∷ ps) =
    let (frame, j') = encode_append_frame c j p in
    let (frames, j'') = append_all c j' ps in ((do f ← frame; fs ← frames; ok (f ++ fs)), j'')

-- The same as plain lists, from the head of the chain.
abbrev pub next_head : Crypto → List ℕ → Packet → List ℕ
next_head c head p = compute_frame_sha256 c head (to_bytes p)

abbrev pub frame_of : Crypto → List ℕ → Packet → List ℕ
frame_of c head p = frame_bytes c head (to_bytes p) (length (to_bytes p))

unfoldable pub log_bytes : Crypto → List ℕ → List Packet → List ℕ
log_bytes c head [] = []
log_bytes c head (p ∷ ps) = frame_of c head p ++ log_bytes c (next_head c head p) ps

unfoldable pub last_head : Crypto → List ℕ → List Packet → List ℕ
last_head c head [] = head
last_head c head (p ∷ ps) = last_head c (next_head c head p) ps

module _ (c : Crypto) (wal_bytes : List ℕ) (fuel : ℕ) (s : Scan) where
  pub scan_step :
      (n : ℕ) {s' : Scan}
      → s.offset < length wal_bytes
      → scan_header wal_bytes s.offset ≡ ok (complete n)
      → scan_frame c wal_bytes s n ≡ ok s'
      → scan c wal_bytes (suc fuel) s ≡ scan c wal_bytes fuel s'
  unfolding scan
  scan_step n more header frame = rw (lt→ltb s.offset (length wal_bytes) more, header, frame)

  pub scan_torn :
      s.offset < length wal_bytes
      → scan_header wal_bytes s.offset ≡ ok truncated
      → scan c wal_bytes (suc fuel) s ≡ ok (report s true)
  unfolding scan
  scan_torn more header = rw (lt→ltb s.offset (length wal_bytes) more, header)

  pub scan_end : length wal_bytes ≤ s.offset → scan c wal_bytes (suc fuel) s ≡ ok (report s false)
  unfolding scan
  scan_end done = rw (le→ltb s.offset (length wal_bytes) done)

module _ (c : Crypto) (lawful : IsLawful c) where
  -- The rounds over the frames of some packets that stand at the offset, whatever follows them.
  pub scan-log_bytes :
      (ps : List Packet) (before tail head : List ℕ) (packets : List Packet) (fuel : ℕ)
      → All IsStorable ps
      → length head ≡ 32
      → scan c
          (before ++ (log_bytes c head ps ++ tail))
          (length ps + fuel)
          (record { offset = length before; expected_prev_sha = head; packets = packets })
        ≡ scan c ((before ++ log_bytes c head ps) ++ tail) fuel (record {
          offset = length (before ++ log_bytes c head ps);
          expected_prev_sha = last_head c head ps;
          packets = packets ++ map carried ps;
        })
  unfolding log_bytes last_head
  scan-log_bytes [] before tail head packets fuel good size =
      let e : 0 + fuel ≡ fuel = omega arith in rw (append-nil, append-nil, e) refl
  scan-log_bytes (p ∷ ps) before tail head packets fuel (good, rest_good) size =
      let frame : List ℕ = frame_of c head p in
      let log : List ℕ = log_bytes c (next_head c head p) ps in
      let rest : List ℕ = log ++ tail in
      let n : ℕ = length (to_bytes p) in
      let long : length frame ≡ 72 + n =
        length-frame_bytes c lawful before rest head (to_bytes p) size in
      let apart : length (before ++ (frame ++ rest))
          ≡ length before + (length frame + length rest) =
        length-append before (frame ++ rest)
        ∙ ap (λ k. length before + k) (length-append frame rest) in
      let step : scan c (before ++ (frame ++ rest)) (suc (length ps + fuel))
            (record { offset = length before; expected_prev_sha = head; packets = packets })
          ≡ scan c (before ++ (frame ++ rest)) (length ps + fuel) (record {
            offset = length before + (72 + n);
            expected_prev_sha = next_head c head p;
            packets = packets ++ (carried p ∷ []);
          }) =
        scan_step c (before ++ (frame ++ rest)) (length ps + fuel) _ n (omega (arith, apart, long))
          (scan_header-frame_bytes c lawful before rest head (to_bytes p) size good.fits)
          (scan_frame-frame_bytes c lawful before rest head (to_bytes p) packets (carried p) size
            (from_bytes-to_bytes p good.valid good.tagged good.known)) in
      let place : length (before ++ frame) ≡ length before + (72 + n) =
        omega (arith, length-append before frame, long) in
      let more : suc (length ps) + fuel ≡ suc (length ps + fuel) = omega arith in
      let on =
        scan-log_bytes ps (before ++ frame) tail (next_head c head p) (packets ++ (carried p ∷ []))
          fuel rest_good (length-compute_frame_sha256 c lawful before rest head (to_bytes p)) in
      rw (append_assoc frame log tail, more, step, ← place, ← append_assoc before frame log)
        (rw (append_assoc before frame rest, append_assoc packets (carried p ∷ []) (map carried ps))
          at on)

  pub log_is_long :
      (head : List ℕ) (ps : List Packet)
      → length head ≡ 32
      → length ps ≤ length (log_bytes c head ps)
  unfolding log_bytes
  log_is_long head [] size = omega arith
  log_is_long head (p ∷ ps) size =
      let short : length (next_head c head p) ≡ 32 =
        length-compute_frame_sha256 c lawful [] [] head (to_bytes p) in
      let more : length ps ≤ length (log_bytes c (next_head c head p) ps) =
        log_is_long (next_head c head p) ps short in
      omega (
        arith,
        more,
        length-append (frame_of c head p) (log_bytes c (next_head c head p) ps),
        length-frame_bytes c lawful [] [] head (to_bytes p) size,
      )

  pub try_u32-fits : (n : ℕ) (e : Error) → n < 2 ^ 32 → try_u32 n e ≡ ok n
  unfolding try_u32
  try_u32-fits n e h = rw (lt→ltb n (2 ^ 32) h) refl

  abbrev pub journal_after : ChronoWalJournal → Packet → ChronoWalJournal
  journal_after j p = record {
    head_sha256 = next_head c j.head_sha256 p;
    frames_count = saturating_add j.frames_count 1;
  }

  pub encode_append_frame-frame :
      (j : ChronoWalJournal) (p : Packet)
      → length (to_bytes p) < 2 ^ 32
      → encode_append_frame c j p ≡ (ok (frame_of c j.head_sha256 p), journal_after j p)
  unfolding encode_append_frame
  encode_append_frame-frame j p fits = rw (encode_append_frame, try_u32-fits _ _ fits) refl

  -- Where a frame was returned, the packet fits it.
  pub encode_append_frame-ok :
      (j : ChronoWalJournal) (p : Packet) {frame : List ℕ}
      → (encode_append_frame c j p).0 ≡ ok frame
      → (length (to_bytes p) < 2 ^ 32) × (frame ≡ frame_of c j.head_sha256 p)
  unfolding encode_append_frame try_u32
  encode_append_frame-ok j p {frame} h = elim (Bool-cases (ltb (length (to_bytes p)) (2 ^ 32))) [
    | inl small ↦ (ground arith, ground arith)
    | inr large ↦ absurd (ground arith)
  ]

  pub append_all-log :
      (j : ChronoWalJournal) (ps : List Packet)
      → All IsStorable ps
      → ((append_all c j ps).0 ≡ ok (log_bytes c j.head_sha256 ps))
        × ((append_all c j ps).1.head_sha256 ≡ last_head c j.head_sha256 ps)
  unfolding append_all log_bytes last_head
  append_all-log j [] good = (refl, refl)
  append_all-log j (p ∷ ps) (good, rest_good) =
      let (log, last) = append_all-log (journal_after j p) ps rest_good in
      (
        rw (encode_append_frame-frame j p good.fits, log) refl,
        rw (encode_append_frame-frame j p good.fits) last,
      )

  pub last_head-length :
      (head : List ℕ) (ps : List Packet) → length head ≡ 32 → length (last_head c head ps) ≡ 32
  unfolding last_head
  last_head-length head [] size = size
  last_head-length head (p ∷ ps) size =
      last_head-length (next_head c head p) ps
        (length-compute_frame_sha256 c lawful [] [] head (to_bytes p))

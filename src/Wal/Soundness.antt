-- ===== src/Wal/Soundness.antt =====
-- Recovery of bytes of any origin: it ends, and what it accepts a journal wrote.
use cripto_endevs_comunity.Base.{
  ℕ, zero, suc, ◌+◌, ◌-◌, ◌≤◌, ◌<◌, ◌≡◌, ◌≢◌, refl, sym, ap, ◌∙◌, Bool, true, false, List, [], ◌∷◌,
  ◌++◌, length, drop, arith, ltb, lt→ltb, ltb→lt, ltb→le, ◌⊎◌, inl, inr, Bool-cases, append_assoc,
  append-nil, length-append, All,
}
use cripto_endevs_comunity.Error.{Error, ok, err, panic}
use cripto_endevs_comunity.Bytes.{IsBytes}
use cripto_endevs_comunity.Bytes.BigEndian.{length-be}
use cripto_endevs_comunity.Bytes.Fields.{field, field-IsBytes}
use cripto_endevs_comunity.Crypto.{Crypto, IsLawful}
use cripto_endevs_comunity.Packet.{Packet, to_bytes}
use cripto_endevs_comunity.Packet.Canonical.{from_bytes-IsPacket}
use cripto_endevs_comunity.Chrono.{zeros_32}
use cripto_endevs_comunity.Wal.{
  Scan, WalRecoveryReport, complete, scan, scan_header, scan_frame, report, start,
  recover_from_bytes, new,
}
use cripto_endevs_comunity.Wal.Frames.{length-frame_bytes, length-compute_frame_sha256}
use cripto_endevs_comunity.Wal.Log.{
  IsStorable, append_all, next_head, frame_of, log_bytes, last_head, scan_step, scan_torn, scan_end,
  append_all-log,
}
use cripto_endevs_comunity.Wal.Evidence.{
  IsHeader, IsAccepted, scan_header-cases, scan_frame-cases, accepted-fits, accepted-length,
  accepted-next, accepted-frame_of,
}

-- What the rest of a scan did that returned a report.
pub record IsScanned (c : Crypto) (bs : List ℕ) (s : Scan) (r : WalRecoveryReport) : Type 0 where
  pub taken : List Packet
  pub packets : r.packets ≡ s.packets ++ taken
  pub storable : All IsStorable taken
  pub head : r.head_chain_sha256 ≡ last_head c s.expected_prev_sha taken
  pub place : r.valid_bytes_len ≡ s.offset + length (log_bytes c s.expected_prev_sha taken)
  pub remains :
      drop s.offset bs ≡ log_bytes c s.expected_prev_sha taken ++ drop r.valid_bytes_len bs

abbrev pub Verdict : Crypto → List ℕ → ℕ → Scan → Type 0
Verdict c bs fuel s =
    ((e : Error) × (scan c bs fuel s ≡ err e))
    ⊎ ((r : WalRecoveryReport) × (scan c bs fuel s ≡ ok r) × IsScanned c bs s r)

module _ (c : Crypto) (bs : List ℕ) where
  report-IsScanned : (s : Scan) (t : Bool) → IsScanned c bs s (report s t)
  unfolding log_bytes last_head
  report-IsScanned s t = record {
    taken = [];
    packets = sym (append-nil s.packets);
    storable = tt;
    head = refl;
    place = omega arith;
    remains = refl;
  }

  module _ (fuel : ℕ) (s : Scan) (more : s.offset < length bs) where
    scan_bad_header : {e : Error} → scan_header bs s.offset ≡ err e → scan c bs (suc fuel) s ≡ err e
    unfolding scan
    scan_bad_header bad = rw (lt→ltb s.offset (length bs) more, bad) refl

    scan_bad_frame :
        {e : Error} (n : ℕ)
        → scan_header bs s.offset ≡ ok (complete n)
        → scan_frame c bs s n ≡ err e
        → scan c bs (suc fuel) s ≡ err e
    unfolding scan
    scan_bad_frame n header bad = rw (lt→ltb s.offset (length bs) more, header, bad) refl

  module _ (lawful : IsLawful c) (b : IsBytes bs) where
    -- A frame in front of what the rest of the scan did.
    IsScanned-frame :
        (s : Scan) (n : ℕ) {s' : Scan} {r : WalRecoveryReport}
        → length s.expected_prev_sha ≡ 32
        → (header : IsHeader bs s.offset n) → (x : IsAccepted c bs s n s') → IsScanned c bs s' r
        → IsScanned c bs s r
    unfolding log_bytes last_head
    IsScanned-frame s n {s'} {r} size header x rest =
        let next = accepted-next c bs b s n header x in
        let after : Scan = record {
          offset = s.offset + (72 + n);
          expected_prev_sha = next_head c s.expected_prev_sha x.packet;
          packets = s.packets ++ (x.packet ∷ []);
        } in
        let y : IsScanned c bs after r = rw next at rest in
        let parsed =
          from_bytes-IsPacket (field n (s.offset + 40) bs) (field-IsBytes n (s.offset + 40) bs b)
            x.parsed in
        let frame : List ℕ = frame_of c s.expected_prev_sha x.packet in
        let log : List ℕ = log_bytes c (next_head c s.expected_prev_sha x.packet) y.taken in
        let long : length frame ≡ 72 + n =
          length-frame_bytes c lawful [] [] s.expected_prev_sha (to_bytes x.packet) size
          ∙ ap (λ k. 72 + k) (accepted-length c bs b s n header x) in
        record {
          taken = x.packet ∷ y.taken;
          packets = y.packets ∙ append_assoc s.packets (x.packet ∷ []) y.taken;
          storable = (
            record {
              valid = parsed.0;
              known = parsed.1;
              tagged = parsed.2;
              fits = accepted-fits c bs b s n header x;
            },
            y.storable,
          );
          head = y.head;
          place = omega (arith, y.place, long, length-append frame log);
          remains =
              accepted-frame_of c bs b s n header x
              ∙ ap (λ k. frame ++ k) y.remains
              ∙ sym (append_assoc frame log (drop r.valid_bytes_len bs));
        }

    scan-Verdict :
        (fuel : ℕ) (s : Scan)
        → length bs - s.offset < fuel
        → s.offset ≤ length bs
        → length s.expected_prev_sha ≡ 32
        → Verdict c bs fuel s
    scan-Verdict zero s enough inside size = absurd (omega arith)
    scan-Verdict (suc fuel) s enough inside size = elim (Bool-cases (ltb s.offset (length bs))) [
      | inr end ↦
          inr (report s false, scan_end c bs fuel s (ltb→le _ _ end), report-IsScanned s false)
      | inl some_left ↦
          let more : s.offset < length bs = ltb→lt _ _ some_left in
          elim (scan_header-cases bs s.offset inside) [
            | inl (e, bad) ↦ inl (e, scan_bad_header fuel s more bad)
            | inr (inl torn) ↦
                inr (report s true, scan_torn c bs fuel s more torn, report-IsScanned s true)
            | inr (inr (n, whole, header)) ↦
                elim (scan_frame-cases c lawful bs s n header.whole size) [
                  | inl (e, bad) ↦ inl (e, scan_bad_frame fuel s more n whole bad)
                  | inr (s', taken, x) ↦
                      let step = scan_step c bs fuel s n more whole taken in
                      let next = accepted-next c bs b s n header x in
                      let size' : length s'.expected_prev_sha ≡ 32 = rw next (
                        length-compute_frame_sha256 c lawful [] [] s.expected_prev_sha
                          (to_bytes x.packet)) in
                      let place : s'.offset ≡ s.offset + (72 + n) = ap (λ t. t.offset) next in
                      let bound : s.offset + (72 + n) ≤ length bs = header.whole in
                      elim (scan-Verdict fuel s' (omega arith) (omega arith) size') [
                        | inl (e, bad) ↦ inl (e, step ∙ bad)
                        | inr (r, done, y) ↦
                            inr (r, step ∙ done, IsScanned-frame s n size header x y)
                      ]
                ]
          ]
    ]

    recover_from_bytes-Verdict : Verdict c bs (suc (length bs)) start
    recover_from_bytes-Verdict =
        scan-Verdict (suc (length bs)) start (omega arith) (omega arith) (length-be 32 0)

-- On any bytes recovery ends with a report or an error: no slice is out of range, and the rounds that
-- the loop is given are enough.
pub recover_from_bytes-ne-panic :
    (c : Crypto) (bs : List ℕ) → IsLawful c → IsBytes bs → recover_from_bytes c bs ≢ panic
unfolding recover_from_bytes
recover_from_bytes-ne-panic c bs lawful b h = elim (recover_from_bytes-Verdict c bs lawful b) [
  | inl (e, bad) ↦ ground (arith, bad)
  | inr (r, done, x) ↦ ground (arith, done)
]

-- Bytes that recovery accepts start with exactly the frames that a new journal returns for the packets
-- of the report, which all are storable. These frames take the length that the report gives, and the
-- journal is then at the head that it gives.
pub recover_from_bytes-append_all_only :
    (c : Crypto) (bs : List ℕ) (r : WalRecoveryReport)
    → IsLawful c
    → IsBytes bs
    → recover_from_bytes c bs ≡ ok r
    → (log : List ℕ) × ((append_all c new r.packets).0 ≡ ok log)
      × ((append_all c new r.packets).1.head_sha256 ≡ r.head_chain_sha256)
      × (log ++ drop r.valid_bytes_len bs ≡ bs)
      × (length log ≡ r.valid_bytes_len)
      × All IsStorable r.packets
unfolding recover_from_bytes
recover_from_bytes-append_all_only c bs r lawful b h =
    elim (recover_from_bytes-Verdict c bs lawful b) [
      | inl (e, bad) ↦ absurd (ground (arith, bad))
      | inr (r', done, x) ↦
          let same : r' ≡ r = ground (arith, done) in
          let y : IsScanned c bs start r = rw same at x in
          let storable : All IsStorable r.packets = rw y.packets y.storable in
          let (log_is, last) = append_all-log c lawful new r.packets storable in
          (
            log_bytes c zeros_32 r.packets,
            log_is,
            last ∙ rw y.packets (sym y.head),
            rw y.packets (sym y.remains),
            rw y.packets (omega (arith, y.place)),
            storable,
          )
    ]

-- ===== src/Demo/Journal.antt =====
-- The journal of the example: two frames and half of a third.
use cripto_endevs_comunity.Base.{
  ℕ, ◌+◌, ◌/◌, ◌≡◌, refl, true, List, [], ◌∷◌, ◌++◌, length, take, arith, not, ◌==◌, append_assoc,
  append-nil, ◌≢◌, codes,
}
use cripto_endevs_comunity.Error.{Result, ok, err, panic, ok-injective}
use cripto_endevs_comunity.Crypto.{Crypto, IsLawful}
use cripto_endevs_comunity.Packet.{Packet, to_bytes}
use cripto_endevs_comunity.Wal.{
  ChronoWalJournal, encode_append_frame, recover_from_bytes, decrypt_recovered_wal,
}
use cripto_endevs_comunity.Wal
use cripto_endevs_comunity.Wal.Frames.{length-frame_bytes, length-compute_frame_sha256}
use cripto_endevs_comunity.Wal.Log.{
  IsStorable, append_all, frame_of, journal_after, encode_append_frame-frame,
}
use cripto_endevs_comunity.Wal.Recovery.{recover_from_bytes-append_all}
use cripto_endevs_comunity.Demo.{power_cut_in_journal, flatten}
use cripto_endevs_comunity.Packet.RoundTrip.{carried}
use cripto_endevs_comunity.Chrono.{ChronoMeshNode, open_persisted_record}
use cripto_endevs_comunity.Panics.{bind-ne-panic, ok-ne-panic}
use cripto_endevs_comunity.Panics.Opening.{open_persisted_record-ne-panic}

append-join : (xs ys zs : List ℕ) → xs ++ (ys ++ zs) ≡ (xs ++ (ys ++ [])) ++ zs
append-join xs ys zs = simp (append_assoc, append-nil)

decrypt_recovered_wal-ne-panic :
    (c : Crypto) (n : ChronoMeshNode) (ps : List Packet) (aad : List ℕ)
    → decrypt_recovered_wal c n ps aad ≢ panic
unfolding decrypt_recovered_wal
decrypt_recovered_wal-ne-panic c n [] aad = ok-ne-panic
decrypt_recovered_wal-ne-panic c n (p ∷ ps) aad =
    bind-ne-panic (open_persisted_record c n p aad) (open_persisted_record-ne-panic c n p aad)
      (λ plaintext opened.
        bind-ne-panic (decrypt_recovered_wal c n ps aad) (decrypt_recovered_wal-ne-panic c n ps aad)
          (λ rest all. ok-ne-panic))

flatten_total :
    (r : Result (List (List ℕ)))
    → r ≢ panic
    → (plaintexts : List (List ℕ)) × (flatten r ≡ ok plaintexts)
unfolding flatten
flatten_total (ok plaintexts) safe = (plaintexts, refl)
flatten_total (err e) safe = ([], refl)
flatten_total panic safe = absurd (safe refl)

module _ (c : Crypto) (lawful : IsLawful c) (node : ChronoMeshNode) (p1 p2 p3 : Packet)
    (s1 : IsStorable p1) (s2 : IsStorable p2) (s3 : IsStorable p3) where
  pub power_cut_in_journal_total :
      (plaintexts : List (List ℕ)) × (power_cut_in_journal c node p1 p2 p3 ≡ ok plaintexts)
  unfolding power_cut_in_journal append_all
  power_cut_in_journal_total =
      let j1 : ChronoWalJournal = journal_after c lawful Wal.new p1 in
      let j2 : ChronoWalJournal = journal_after c lawful j1 p2 in
      let frame1 : List ℕ = frame_of c Wal.new.head_sha256 p1 in
      let frame2 : List ℕ = frame_of c j1.head_sha256 p2 in
      let frame3 : List ℕ = frame_of c j2.head_sha256 p3 in
      let e1 = encode_append_frame-frame c lawful Wal.new p1 s1.fits in
      let e2 = encode_append_frame-frame c lawful j1 p2 s2.fits in
      let e3 = encode_append_frame-frame c lawful j2 p3 s3.fits in
      let k : ℕ = length frame3 / 2 in
      let size : length frame3 ≡ 72 + length (to_bytes p3) =
        length-frame_bytes c lawful [] [] j2.head_sha256 (to_bytes p3)
          (length-compute_frame_sha256 c lawful [] [] j1.head_sha256 (to_bytes p2)) in
      let (log, next, logged, framed, recovers) =
        recover_from_bytes-append_all c lawful (p1 ∷ p2 ∷ []) p3 k (s1, (s2, tt)) s3
          (omega arith) in
      let is_log : frame1 ++ (frame2 ++ []) ≡ log = ok-injective (rw (e1, e2) at logged) in
      let is_next : frame3 ≡ next = ok-injective (rw (e1, e2, e3) at framed) in
      let halved : not (k == 0) ≡ true = ground arith in
      let bytes : frame1 ++ (frame2 ++ take k frame3) ≡ log ++ take k next =
        rw (← is_log, ← is_next) (append-join frame1 frame2 (take k frame3)) in
      let packets : List Packet = carried p1 ∷ carried p2 ∷ [] in
      let (plaintexts, flat) =
        flatten_total (decrypt_recovered_wal c node packets (codes "aad:1"))
          (decrypt_recovered_wal-ne-panic c node packets (codes "aad:1")) in
      (
        plaintexts,
        rw (e1, power_cut_in_journal) (rw e2 (rw e3 (rw bytes (rw (recovers, halved) flat)))),
      )

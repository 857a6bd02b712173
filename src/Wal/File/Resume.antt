-- ===== src/Wal/File/Resume.antt =====
-- A journal on disk across a power cut, and across an append that fails.
use mathlib.Core.List.{map}
use cripto_endevs_comunity.Base.{
  ℕ, zero, suc, ◌+◌, ◌^◌, ◌<◌, ◌≡◌, ◌≢◌, refl, sym, ap, ◌∙◌, false, not, Option, some, List, [],
  ◌∷◌, ◌++◌, length, take, arith, ◌==◌, inl, append_assoc, append-nil, take-append, All, All-append,
  if◌then◌else◌,
}
use cripto_endevs_comunity.Error.{ok, err, integridad_contexto_corrupta, io}
use cripto_endevs_comunity.Crypto.{Crypto, IsLawful}
use cripto_endevs_comunity.Packet.{Packet, to_bytes}
use cripto_endevs_comunity.Packet.RoundTrip.{carried}
use cripto_endevs_comunity.Chrono.{zeros_32}
use cripto_endevs_comunity.Wal.{
  ChronoWalJournal, WalRecoveryReport, from_head, encode_append_frame, recover_from_bytes,
  recover_from_file, compute_frame_sha256, new,
}
use cripto_endevs_comunity.Wal.Frames.{length-compute_frame_sha256}
use cripto_endevs_comunity.Wal.Log.{
  IsStorable, append_all, next_head, frame_of, log_bytes, last_head, append_all-log, journal_after,
  encode_append_frame-frame,
}
use cripto_endevs_comunity.Wal.Gap.{recover_from_bytes-gap}
use cripto_endevs_comunity.Wal.Recovery.{start-scan, recover_from_bytes-append_all}
use cripto_endevs_comunity.Wal.File.{unopened, done, write_frame, append_to_file}

log_bytes-append :
    (c : Crypto) (head : List ℕ) (ps : List Packet) (q : Packet)
    → log_bytes c head (ps ++ (q ∷ [])) ≡ log_bytes c head ps ++ frame_of c (last_head c head ps) q
unfolding log_bytes last_head
log_bytes-append c head [] q = append-nil (frame_of c head q)
log_bytes-append c head (p ∷ ps) q =
    rw
      (
        log_bytes-append c (next_head c head p) ps q,
        append_assoc (frame_of c head p) (log_bytes c (next_head c head p) ps),
      )
      refl

map-append :
    (ps : List Packet) (q : Packet)
    → map carried (ps ++ (q ∷ [])) ≡ map carried ps ++ (carried q ∷ [])
map-append [] q = refl
map-append (p ∷ ps) q = ap (◌∷◌ (carried p)) (map-append ps q)

-- An append that succeeds.
append_to_file-done :
    (c : Crypto) (j : ChronoWalJournal) (log : List ℕ) (q : Packet)
    → IsLawful c
    → length (to_bytes q) < 2 ^ 32
    → let (result, _, file) = append_to_file c j (some log) q done in
      (result ≡ ok tt) × (file ≡ some (log ++ frame_of c j.head_sha256 q))
unfolding append_to_file write_frame
append_to_file-done c j log q lawful fits =
    rw (append_to_file, encode_append_frame-frame c lawful j q fits, write_frame) (refl, refl)

append_to_file-unopened :
    (c : Crypto) (j : ChronoWalJournal) (file : Option (List ℕ)) (p : Packet) (text : List ℕ)
    → (lawful : IsLawful c) → length (to_bytes p) < 2 ^ 32
    → append_to_file c j file p (unopened text) ≡ (err (io text), journal_after c lawful j p, file)
unfolding append_to_file write_frame
append_to_file-unopened c j file p text lawful fits =
    let framed = encode_append_frame-frame c lawful j p fits in
    rw (append_to_file, ap (λ r. r.0) framed, ap (λ r. r.1) framed, write_frame) refl

-- What recovery leaves on disk.
kept_bytes :
    (log rest : List ℕ) (k : ℕ)
    → (if not (k == 0) then take (length log) (log ++ take k rest) else log ++ take k rest) ≡ log
kept_bytes log rest zero = append-nil log
kept_bytes log rest (suc k) =
    let some_rest : (suc k == 0) ≡ false = ground arith in
    rw some_rest (take-append log (take (suc k) rest) (length log) refl)

-- A new journal that appended packets to its file, and of one more frame wrote only the first `k` bytes
-- and not the last, where the packets have the versions 1 to 3, fields in the ranges of their Rust
-- types, a ciphertext with room for its tag and less than 2^32 bytes each: recovery returns these
-- packets in their order, each with the fields that its version carries and zeros for the others
-- (version 3 carries all), and leaves exactly their frames in the file. When the journal that it
-- returns appends such a packet, the file is recovered without a torn tail, to the packets before and
-- that one with the fields that it carries.
pub recover_from_file-append_to_file :
    (c : Crypto) (ps : List Packet) (p q : Packet) (k : ℕ) (log next : List ℕ)
    (j : ChronoWalJournal)
    → IsLawful c
    → All IsStorable ps
    → IsStorable p
    → IsStorable q
    → k < 72 + length (to_bytes p)
    → append_all c new ps ≡ (ok log, j)
    → (encode_append_frame c j p).0 ≡ ok next
    → (j' : ChronoWalJournal) × (r : WalRecoveryReport) × (recover_from_file c
          (some (log ++ take k next))
        ≡ ok (j', r, some log))
      × (r.packets ≡ map carried ps)
      × (file : List ℕ) × (r' : WalRecoveryReport) × ((append_to_file c j' (some log) q done).0
          ≡ ok tt)
      × ((append_to_file c j' (some log) q done).2 ≡ some file)
      × (recover_from_bytes c file ≡ ok r')
      × (r'.packets ≡ map carried ps ++ (carried q ∷ []))
      × (r'.had_truncated_tail ≡ false)
unfolding recover_from_file
recover_from_file-append_to_file c ps p q k log next j lawful good storable storable' short wrote
      torn =
    let (log', next', log_is, next_is, recovers) =
      recover_from_bytes-append_all c lawful ps p k good storable short in
    let (all_is, last) = append_all-log c lawful new ps good in
    let same_log : log' ≡ log = ground (arith, log_is, wrote) in
    let same_next : next' ≡ next = ground (arith, next_is, torn, wrote) in
    let bytes_is : log ≡ log_bytes c zeros_32 ps = ground (arith, all_is, wrote) in
    let head : j.head_sha256 ≡ last_head c zeros_32 ps =
      sym (ap (λ r. r.1.head_sha256) wrote) ∙ last in
    let report : WalRecoveryReport = record {
      packets = map carried ps;
      head_chain_sha256 = j.head_sha256;
      valid_bytes_len = length log;
      had_truncated_tail = not (k == 0);
    } in
    let found : recover_from_bytes c (log ++ take k next) ≡ ok report =
      rw (same_log, same_next, wrote) at recovers in
    let j' : ChronoWalJournal = from_head j.head_sha256 (length (map carried ps)) in
    let (appends, file_is) = append_to_file-done c j' log q lawful storable'.fits in
    let again = rw append-nil at (
      start-scan c lawful [] (inl (omega arith)) (ps ++ (q ∷ []))
        (All-append IsStorable ps (q ∷ []) good (storable', tt))) in
    (
      j',
      report,
      rw (recover_from_file, found, kept_bytes log next k) refl,
      refl,
      log ++ frame_of c j.head_sha256 q,
      record {
        packets = map carried (ps ++ (q ∷ []));
        head_chain_sha256 = last_head c zeros_32 (ps ++ (q ∷ []));
        valid_bytes_len = length (log_bytes c zeros_32 (ps ++ (q ∷ [])));
        had_truncated_tail = false;
      },
      appends,
      file_is,
      rw (bytes_is, head, ← log_bytes-append c zeros_32 ps q) again,
      map-append ps q,
      refl,
    )

-- A journal whose file could not be opened for a packet fails with an input or output error, but it
-- has moved on. If the hash of that frame is not the head that it follows, then recovery refuses
-- the whole file once the journal has appended another packet.
pub append_to_file_loses :
    (c : Crypto) (ps : List Packet) (p q : Packet) (text log : List ℕ) (j : ChronoWalJournal)
    → IsLawful c
    → All IsStorable ps
    → IsStorable p
    → IsStorable q
    → append_all c new ps ≡ (ok log, j)
    → compute_frame_sha256 c j.head_sha256 (to_bytes p) ≢ j.head_sha256
    → let (result, j', file) = append_to_file c j (some log) p (unopened text) in
      (result ≡ err (io text))
      × (file ≡ some log)
      × (grown : List ℕ) × ((append_to_file c j' file q done).0 ≡ ok tt)
      × ((append_to_file c j' file q done).2 ≡ some grown)
      × (recover_from_bytes c grown ≡ err integridad_contexto_corrupta)
unfolding append_to_file write_frame
append_to_file_loses c ps p q text log j lawful good storable storable' wrote other =
    let (all_is, last) = append_all-log c lawful new ps good in
    let bytes_is : log ≡ log_bytes c zeros_32 ps = ground (arith, all_is, wrote) in
    let head : j.head_sha256 ≡ last_head c zeros_32 ps =
      sym (ap (λ r. r.1.head_sha256) wrote) ∙ last in
    let lost : List ℕ = next_head c j.head_sha256 p in
    let gap =
      recover_from_bytes-gap c ps q lost lawful good storable'.fits
        (length-compute_frame_sha256 c lawful [] [] j.head_sha256 (to_bytes p))
        (λ e. other (e ∙ sym head)) in
    let (appends, file_is) =
      append_to_file-done c (journal_after c lawful j p) log q lawful storable'.fits in
    rw (append_to_file-unopened c j (some log) p text lawful storable.fits)
      (refl, refl, log ++ frame_of c lost q, appends, file_is, rw bytes_is gap)

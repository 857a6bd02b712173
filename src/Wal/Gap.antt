-- ===== src/Wal/Gap.antt =====
-- A journal from which a frame is missing.
use mathlib.Core.List.{map}
use cripto_endevs_comunity.Base.{
  ℕ, suc, ◌+◌, ◌-◌, ◌^◌, ◌≤◌, ◌<◌, ◌≡◌, ◌≢◌, refl, List, [], ◌++◌, length, arith, lt→ltb,
  append-nil, length-append, All,
}
use cripto_endevs_comunity.Error.{ok, err, integridad_contexto_corrupta}
use cripto_endevs_comunity.Bytes.BigEndian.{length-be}
use cripto_endevs_comunity.Crypto.{Crypto, IsLawful}
use cripto_endevs_comunity.Packet.{Packet, to_bytes}
use cripto_endevs_comunity.Packet.RoundTrip.{carried}
use cripto_endevs_comunity.Chrono.{zeros_32}
use cripto_endevs_comunity.Wal.{Scan, complete, scan, scan_header, scan_frame, recover_from_bytes}
use cripto_endevs_comunity.Wal.Frames.{
  scan_header-frame_bytes, scan_frame_apart, length-frame_bytes,
}
use cripto_endevs_comunity.Wal.Log.{
  IsStorable, frame_of, log_bytes, last_head, last_head-length, log_is_long, scan-log_bytes,
}

scan_stops :
    (c : Crypto) (wal_bytes : List ℕ) (fuel : ℕ) (s : Scan) (n : ℕ)
    → s.offset < length wal_bytes
    → scan_header wal_bytes s.offset ≡ ok (complete n)
    → scan_frame c wal_bytes s n ≡ err integridad_contexto_corrupta
    → scan c wal_bytes (suc fuel) s ≡ err integridad_contexto_corrupta
unfolding scan
scan_stops c wal_bytes fuel s n more header bad =
    rw (lt→ltb s.offset (length wal_bytes) more, header, bad) refl

-- The frames of some packets, and behind them one that was made for another head of the chain:
-- recovery refuses the whole journal.
pub recover_from_bytes-gap :
    (c : Crypto) (ps : List Packet) (p : Packet) (head : List ℕ)
    → IsLawful c
    → All IsStorable ps
    → length (to_bytes p) < 2 ^ 32
    → length head ≡ 32
    → head ≢ last_head c zeros_32 ps
    → recover_from_bytes c (log_bytes c zeros_32 ps ++ frame_of c head p)
      ≡ err integridad_contexto_corrupta
unfolding recover_from_bytes
recover_from_bytes-gap c ps p head lawful good fits size other =
    let log : List ℕ = log_bytes c zeros_32 ps in
    let frame : List ℕ = frame_of c head p in
    let zeros : length zeros_32 ≡ 32 = length-be 32 0 in
    let left : ℕ = length (log ++ frame) - length ps in
    let long : length ps ≤ length (log ++ frame) =
      omega (arith, length-append log frame, log_is_long c lawful zeros_32 ps zeros) in
    let fuel : suc (length (log ++ frame)) ≡ length ps + suc left = omega arith in
    let more : length log < length (log ++ frame) =
      omega (
        arith,
        length-append log frame,
        length-frame_bytes c lawful log [] head (to_bytes p) size,
      ) in
    let header =
      rw append-nil at (scan_header-frame_bytes c lawful log [] head (to_bytes p) size fits) in
    let bad = rw append-nil at (
      scan_frame_apart c lawful log [] head (to_bytes p) (map carried ps) (last_head c zeros_32 ps)
        size (last_head-length c lawful zeros_32 ps zeros) other) in
    rw (fuel, scan-log_bytes c lawful ps [] frame zeros_32 [] (suc left) good zeros)
      (scan_stops c (log ++ frame) left _ (length (to_bytes p)) more header bad)

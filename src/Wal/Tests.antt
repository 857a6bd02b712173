-- ===== src/Wal/Tests.antt =====
-- A journal of one packet, and a second frame of which five bytes were written.
use cripto_endevs_comunity.Base.{some, false}
use cripto_endevs_comunity.Error.{Result, err, io, integridad_contexto_corrupta}
use cripto_endevs_comunity.Bytes.{try_u32, saturating_add}
use cripto_endevs_comunity.Wal.{ChronoWalJournal, recover_from_file}
use cripto_endevs_comunity.Wal.File.{unopened, done, append_to_file}
use cripto_endevs_comunity.Wal.File.Resume.{recover_from_file-append_to_file, append_to_file_loses}
use cripto_endevs_comunity.Base.{
  ℕ, ◌≡◌, ◌==◌, not, refl, List, [], ◌∷◌, ◌++◌, replicate, take, arith, length,
}
use cripto_endevs_comunity.Error.{ok}
use cripto_endevs_comunity.Bytes.{be}
use cripto_endevs_comunity.Crypto.Toy.{toy, toy-IsLawful}
use cripto_endevs_comunity.Packet.{Packet, IsPacket, to_bytes}
use cripto_endevs_comunity.Wal.{new, encode_append_frame, recover_from_bytes}
use cripto_endevs_comunity.Wal.Log.{IsStorable, append_all}
use cripto_endevs_comunity.Base.{Bool, true, ◌≢◌, ◌&&◌, ltb, inl, drop, All}
use cripto_endevs_comunity.Error.{panic}
use cripto_endevs_comunity.Bytes.{IsBytes}
use cripto_endevs_comunity.Crypto.Toy.{spread, mix}
use cripto_endevs_comunity.Chrono.{zeros_32}
use cripto_endevs_comunity.Wal.{WalRecoveryReport, frame_bytes, compute_frame_sha256}
use cripto_endevs_comunity.Wal.Log.{log_bytes, last_head}
use cripto_endevs_comunity.Wal.Soundness.{recover_from_bytes-append_all_only}
use cripto_endevs_comunity.Wal.Recovery.{start-scan, recover_from_bytes-append_all}

abbrev sample : Packet
sample = record {
  version = 3;
  flags = 0;
  node_id = 4;
  epoch = 1;
  sequence = 5;
  timestamp_ms = 900;
  nonce = replicate 12 7;
  ciphertext = replicate 20 9;
}

sample-IsPacket : IsPacket sample
sample-IsPacket = record {
  version = omega arith;
  flags = omega arith;
  node_id = omega arith;
  epoch = omega arith;
  sequence = omega arith;
  timestamp_ms = omega arith;
  nonce = refl;
  nonce_bytes = ground arith;
  ciphertext = ground arith;
}

length-sample : length (to_bytes sample) ≡ 62
unfolding to_bytes be
length-sample = refl

sample-IsStorable : IsStorable sample
sample-IsStorable = record {
  valid = sample-IsPacket;
  known = (omega arith, omega arith);
  tagged = omega arith;
  fits = omega (arith, length-sample);
}

recover_from_bytes-append_all_example :
    let (frames, j) = append_all toy new (sample ∷ []) in
    let (frame, _) = encode_append_frame toy j sample in
    (log : List ℕ) × (next : List ℕ) × (frames ≡ ok log)
    × (frame ≡ ok next)
    × (recover_from_bytes toy (log ++ take 5 next)
        ≡ ok (record {
          packets = sample ∷ [];
          head_chain_sha256 = j.head_sha256;
          valid_bytes_len = length log;
          had_truncated_tail = not (5 == 0);
        }))
recover_from_bytes-append_all_example =
    recover_from_bytes-append_all toy toy-IsLawful (sample ∷ []) sample 5 (sample-IsStorable, tt)
      sample-IsStorable (omega (arith, length-sample))

-- The journal of one packet with three bytes behind it.
abbrev file : List ℕ
file = log_bytes toy zeros_32 (sample ∷ []) ++ (67 ∷ 78 ∷ 87 ∷ [])

abbrev recovered : WalRecoveryReport
recovered = record {
  packets = sample ∷ [];
  head_chain_sha256 = last_head toy zeros_32 (sample ∷ []);
  valid_bytes_len = length (log_bytes toy zeros_32 (sample ∷ []));
  had_truncated_tail = true;
}

recovers : recover_from_bytes toy file ≡ ok recovered
recovers =
    start-scan toy toy-IsLawful (67 ∷ 78 ∷ 87 ∷ []) (inl (omega arith)) (sample ∷ [])
      (sample-IsStorable, tt)

is_bytes : List ℕ → Bool
is_bytes [] = true
is_bytes (b ∷ bs) = ltb b 256 && is_bytes bs

is_bytes_sound : (bs : List ℕ) → is_bytes bs ≡ true → IsBytes bs
unfolding is_bytes
is_bytes_sound [] h = tt
is_bytes_sound (b ∷ bs) h = (ground arith, is_bytes_sound bs (ground arith))

file-IsBytes : IsBytes file
unfolding is_bytes log_bytes frame_bytes compute_frame_sha256 be to_bytes spread mix
file-IsBytes = is_bytes_sound file refl

recover_from_bytes-append_all_only_example :
    (log : List ℕ) × ((append_all toy new (sample ∷ [])).0 ≡ ok log)
    × ((append_all toy new (sample ∷ [])).1.head_sha256 ≡ recovered.head_chain_sha256)
    × (log ++ drop recovered.valid_bytes_len file ≡ file)
    × (length log ≡ recovered.valid_bytes_len)
    × All IsStorable (sample ∷ [])
recover_from_bytes-append_all_only_example =
    recover_from_bytes-append_all_only toy file recovered toy-IsLawful file-IsBytes recovers

-- The journal of one packet on disk, and five bytes of the next frame.
abbrev or_bytes : Result (List ℕ) → List ℕ
or_bytes (ok bs) = bs
or_bytes (err e) = []
or_bytes panic = []

abbrev journal : ChronoWalJournal
journal = (append_all toy new (sample ∷ [])).1

abbrev log : List ℕ
log = or_bytes (append_all toy new (sample ∷ [])).0

abbrev next : List ℕ
next = or_bytes (encode_append_frame toy journal sample).0

wrote : append_all toy new (sample ∷ []) ≡ (ok log, journal)
unfolding append_all encode_append_frame frame_bytes compute_frame_sha256 try_u32 saturating_add be
    spread mix to_bytes
wrote = refl

next-ok : (encode_append_frame toy journal sample).0 ≡ ok next
unfolding append_all encode_append_frame frame_bytes compute_frame_sha256 try_u32 saturating_add be
    spread mix to_bytes
next-ok = refl

head_moves : compute_frame_sha256 toy journal.head_sha256 (to_bytes sample) ≢ journal.head_sha256
unfolding append_all encode_append_frame compute_frame_sha256 try_u32 saturating_add be spread mix
    to_bytes
head_moves = λ e. ground arith

recover_from_file-append_to_file_example :
    (j' : ChronoWalJournal) × (r : WalRecoveryReport) × (recover_from_file toy
        (some (log ++ take 5 next))
      ≡ ok (j', r, some log))
    × (r.packets ≡ sample ∷ [])
    × (grown : List ℕ) × (r' : WalRecoveryReport) × ((append_to_file toy j'
          (some log)
          sample
          done).0
        ≡ ok tt)
    × ((append_to_file toy j' (some log) sample done).2 ≡ some grown)
    × (recover_from_bytes toy grown ≡ ok r')
    × (r'.packets ≡ sample ∷ sample ∷ [])
    × (r'.had_truncated_tail ≡ false)
recover_from_file-append_to_file_example =
    recover_from_file-append_to_file toy (sample ∷ []) sample sample 5 log next journal toy-IsLawful
      (sample-IsStorable, tt) sample-IsStorable sample-IsStorable (omega (arith, length-sample))
      wrote next-ok

append_to_file_loses_example :
    let (result, j', left) = append_to_file toy journal (some log) sample (unopened []) in
    (result ≡ err (io []))
    × (left ≡ some log)
    × (grown : List ℕ) × ((append_to_file toy j' left sample done).0 ≡ ok tt)
    × ((append_to_file toy j' left sample done).2 ≡ some grown)
    × (recover_from_bytes toy grown ≡ err integridad_contexto_corrupta)
append_to_file_loses_example =
    append_to_file_loses toy (sample ∷ []) sample sample [] log journal toy-IsLawful
      (sample-IsStorable, tt) sample-IsStorable sample-IsStorable wrote head_moves

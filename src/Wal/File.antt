-- ===== src/Wal/File.antt =====
-- `ChronoWalJournal::append_to_file`. What the file system does is an argument: it opens the file or
-- not, writes all bytes of the frame or fails after some, and syncs them or not.
pub mod Resume
use cripto_endevs_comunity.Base.{ℕ, Option, some, none, List, [], ◌++◌, take}
use cripto_endevs_comunity.Error.{Result, ok, err, panic, io}
use cripto_endevs_comunity.Crypto.{Crypto}
use cripto_endevs_comunity.Packet.{Packet}
use cripto_endevs_comunity.Wal.{ChronoWalJournal, encode_append_frame}

-- The texts are those of the errors.
pub data Append : Type 0 where
  unopened : (text : List ℕ) → Append
  cut_at : (count : ℕ) (text : List ℕ) → Append
  unsynced : (text : List ℕ) → Append
  done : Append

-- The file is created if it is missing, and written at its end.
abbrev pub old_bytes : Option (List ℕ) → List ℕ
old_bytes none = []
old_bytes (some bytes) = bytes

-- What is written of a frame, and how the call ends.
pub write_frame :
    Append → (frame : List ℕ) → (file : Option (List ℕ)) → Result (Unit {0}) × Option (List ℕ)
write_frame (unopened text) frame file = (err (io text), file)
write_frame (cut_at count text) frame file =
    (err (io text), some (old_bytes file ++ take count frame))
write_frame (unsynced text) frame file = (err (io text), some (old_bytes file ++ frame))
write_frame done frame file = (ok tt, some (old_bytes file ++ frame))

-- What the call returns, the journal that it leaves, and the file.
pub append_to_file :
    Crypto
    → ChronoWalJournal
    → (file : Option (List ℕ)) → Packet
    → Append
    → Result (Unit {0}) × ChronoWalJournal × Option (List ℕ)
unfolding write_frame
append_to_file c j file packet os =
    let (encoded, j') = encode_append_frame c j packet in
    elim encoded [
      | ok frame ↦ let (result, file') = write_frame os frame file in (result, j', file')
      | err e ↦ (err e, j', file)
      | panic ↦ (panic, j', file)
    ]

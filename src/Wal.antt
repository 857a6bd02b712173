-- ===== src/Wal.antt =====
-- The journal `ChronoWalJournal` of src/persistence.rs: packets in frames that are chained by SHA-256.
-- A file is the bytes read from it; Wal/File has the writes.
pub mod Frames
pub mod Log
pub mod Gap
pub mod Evidence
pub mod Soundness
pub mod File
pub mod Recovery
mod Tests
use cripto_endevs_comunity.Base.{
  ℕ, zero, suc, Option, some, none, ◌+◌, ◌-◌, ◌^◌, Bool, true, false, List, [], ◌∷◌, ◌++◌, length,
  take, ltb, ◌==◌, if◌then◌else◌, codes, list_eq,
}
use cripto_endevs_comunity.Error.{
  Error, Result, ok, err, panic, ◌>>=◌, ◌>>◌, reject, require, paquete_corrupto,
  aad_demasiado_largo, integridad_contexto_corrupta,
}
use cripto_endevs_comunity.Bytes.{
  be, slice, read_be, try_u32, saturating_add, checked_add, diff_bytes,
}
use cripto_endevs_comunity.Crypto.{Crypto}
use cripto_endevs_comunity.Packet.{Packet, to_bytes, from_bytes}
use cripto_endevs_comunity.Chrono.{ChronoMeshNode, open_persisted_record, zeros_32}

abbrev pub magic_wal_frame : List ℕ
magic_wal_frame = codes "CNWL"

pub record ChronoWalJournal : Type 0 where
  pub head_sha256 : List ℕ
  pub frames_count : ℕ

abbrev pub new : ChronoWalJournal
new = record { head_sha256 = zeros_32; frames_count = 0 }

abbrev pub from_head : List ℕ → ℕ → ChronoWalJournal
from_head head_sha256 frames_count = record {
  head_sha256 = head_sha256;
  frames_count = frames_count;
}

unfoldable pub compute_frame_sha256 : Crypto → (prev_sha pkt_bytes : List ℕ) → List ℕ
compute_frame_sha256 c prev_sha pkt_bytes =
    c.sha256
      (codes "CryptoNugget:WAL:Frame:v1" ++ (prev_sha ++ (be 8 (length pkt_bytes) ++ pkt_bytes)))

-- The frame of the bytes of a packet behind a head.
unfoldable pub frame_bytes : Crypto → (head pkt_bytes : List ℕ) → (pkt_len : ℕ) → List ℕ
frame_bytes c head pkt_bytes pkt_len =
    magic_wal_frame
    ++ (be 4 pkt_len ++ (head ++ (pkt_bytes ++ compute_frame_sha256 c head pkt_bytes)))

unfoldable pub encode_append_frame :
    Crypto → ChronoWalJournal → Packet → Result (List ℕ) × ChronoWalJournal
unfolding try_u32
encode_append_frame c j packet =
    let pkt_bytes = to_bytes packet in
    elim (try_u32 (length pkt_bytes) aad_demasiado_largo) [
      | ok pkt_len ↦ (
        ok (frame_bytes c j.head_sha256 pkt_bytes pkt_len),
        record {
          head_sha256 = compute_frame_sha256 c j.head_sha256 pkt_bytes;
          frames_count = saturating_add j.frames_count 1;
        },
      )
      | err e ↦ (err e, j)
      | panic ↦ (panic, j)
    ]

pub record WalRecoveryReport : Type 0 where
  pub packets : List Packet
  pub head_chain_sha256 : List ℕ
  pub valid_bytes_len : ℕ
  pub had_truncated_tail : Bool

-- `constant_time_eq_32`
unfoldable pub constant_time_eq_32 : List ℕ → List ℕ → Bool
unfolding diff_bytes
constant_time_eq_32 a b = if length a == 32 then diff_bytes 0 a b == 0 else false

-- The variables of the loop of `recover_from_bytes`.
pub record Scan : Type 0 where
  pub offset : ℕ
  pub expected_prev_sha : List ℕ
  pub packets : List Packet

abbrev pub report : Scan → Bool → WalRecoveryReport
report s truncated = record {
  packets = s.packets;
  head_chain_sha256 = s.expected_prev_sha;
  valid_bytes_len = s.offset;
  had_truncated_tail = truncated;
}

-- One round on a frame that is complete: its place in the chain, its own hash and its packet.
pub scan_frame : Crypto → List ℕ → Scan → (pkt_len : ℕ) → Result Scan
scan_frame c wal_bytes s pkt_len = do
  prev_sha ← slice (s.offset + 8) (s.offset + 40) wal_bytes
  pkt_slice ← slice (s.offset + 40) (s.offset + 40 + pkt_len) wal_bytes
  stored_frame_sha ← slice (s.offset + 40 + pkt_len) (s.offset + (72 + pkt_len)) wal_bytes
  require (constant_time_eq_32 prev_sha s.expected_prev_sha) integridad_contexto_corrupta
  let computed_sha = compute_frame_sha256 c s.expected_prev_sha pkt_slice
  require (constant_time_eq_32 stored_frame_sha computed_sha) integridad_contexto_corrupta
  packet ← from_bytes pkt_slice
  ok (record {
    offset = s.offset + (72 + pkt_len);
    expected_prev_sha = computed_sha;
    packets = s.packets ++ (packet ∷ []);
  })

-- The head of a round: `none` where the tail is too short for the frame that it begins.
pub data Round : Type 0 where
  complete : (pkt_len : ℕ) → Round
  truncated : Round

pub scan_header : List ℕ → (offset : ℕ) → Result Round
scan_header wal_bytes offset =
    let remaining = length wal_bytes - offset in
    if ltb remaining 72 then ok truncated else (do
      magic ← slice offset (offset + 4) wal_bytes
      require (list_eq magic magic_wal_frame) paquete_corrupto
      pkt_len ← read_be 4 (offset + 4) wal_bytes
      total_frame_len ← checked_add 72 pkt_len paquete_corrupto
      ok (if ltb remaining total_frame_len then truncated else complete pkt_len))

-- The loop, on fuel: every round but the last moves the offset by 72 or more. Without fuel it would
-- end as a panic does, and no run does.
pub scan : Crypto → List ℕ → (fuel : ℕ) → Scan → Result WalRecoveryReport
scan c wal_bytes zero s = panic
scan c wal_bytes (suc fuel) s =
    if ltb s.offset (length wal_bytes)
    then (do
      round ← scan_header wal_bytes s.offset
      elim round [
        | truncated ↦ ok (report s true)
        | complete pkt_len ↦ (do s' ← scan_frame c wal_bytes s pkt_len; scan c wal_bytes fuel s')
      ])
    else ok (report s false)

abbrev pub start : Scan
start = record { offset = 0; expected_prev_sha = zeros_32; packets = [] }

unfoldable pub recover_from_bytes : Crypto → List ℕ → Result WalRecoveryReport
recover_from_bytes c wal_bytes = scan c wal_bytes (suc (length wal_bytes)) start

-- `recover_from_file`: of the bytes of the file, or of no file, what it returns and what it leaves on
-- disk. An error of the file system itself is not modelled.
pub recover_from_file :
    Crypto
    → (file : Option (List ℕ)) → Result (ChronoWalJournal × WalRecoveryReport × Option (List ℕ))
recover_from_file c none = ok (new, report start false, none)
recover_from_file c (some bytes) = do
  r ← recover_from_bytes c bytes
  ok (
    from_head r.head_chain_sha256 (length r.packets),
    r,
    some (if r.had_truncated_tail then take r.valid_bytes_len bytes else bytes),
  )

unfoldable pub decrypt_recovered_wal :
    Crypto → ChronoMeshNode → List Packet → (user_aad : List ℕ) → Result (List (List ℕ))
decrypt_recovered_wal c node [] user_aad = ok []
decrypt_recovered_wal c node (pkt ∷ pkts) user_aad = do
  pt ← open_persisted_record c node pkt user_aad
  rest ← decrypt_recovered_wal c node pkts user_aad
  ok (pt ∷ rest)

-- ===== src/Ffi/Losses.antt =====
-- What a buffer that is too small costs: the call fails after its effect on the handle.
mod Tests
use cripto_endevs_comunity.Base.{
  ℕ, ◌+◌, ◌^◌, ◌<◌, ◌≤◌, ◌≡◌, ◌≢◌, [], ◌++◌, All, refl, sym, ap, ◌∙◌, false, some, none, List,
  length, inl, inr, Bool-cases, arith,
}
use cripto_endevs_comunity.Error.{
  ok, err, negsuc, to_ffi_code, Result-cases, integridad_contexto_corrupta,
}
use cripto_endevs_comunity.Crypto.{Crypto, IsLawful}
use cripto_endevs_comunity.Packet.{Packet, to_bytes, from_bytes}
use cripto_endevs_comunity.Bytes.BigEndian.{length-be}
use cripto_endevs_comunity.Chrono.{ChronoMeshNode, abs_diff, open_realtime, seal_realtime, zeros_32}
use cripto_endevs_comunity.Chrono.Peers.{get}
use cripto_endevs_comunity.Chrono.Repeat.{open_realtime-twice}
use cripto_endevs_comunity.Ffi.{
  CnMeshHandle, bytes, Output, Call, has_room, write_output, code_of, respond, slice_from_raw,
  cn_mesh_open_realtime, cn_mesh_seal_wal_frame, frame_packet,
}
use cripto_endevs_comunity.Ffi.RoundTrip.{respond-out_buf}
use cripto_endevs_comunity.Wal.{new, compute_frame_sha256, encode_append_frame, recover_from_bytes}
use cripto_endevs_comunity.Wal.Frames.{length-frame_bytes, length-compute_frame_sha256}
use cripto_endevs_comunity.Wal.Log.{
  IsStorable, append_all, frame_of, log_bytes, last_head, journal_after, last_head-length,
  append_all-log, encode_append_frame-frame, encode_append_frame-ok,
}
use cripto_endevs_comunity.Wal.Gap.{recover_from_bytes-gap}

-- An output that does not fit is not written, and the call fails; the handle is as it was left.
respond_small :
    (src : List ℕ) (out : Output) (h : CnMeshHandle)
    → has_room out.buffer (length src) ≡ false
    → ((respond (ok src) out h).code ≡ negsuc 15)
      × ((respond (ok src) out h).written.out_buf ≡ none)
      × ((respond (ok src) out h).handle ≡ some h)
unfolding respond write_output code_of to_ffi_code
respond_small src out h small = elim (Bool-cases out.has_len) [
  | inl len ↦ rw (respond, write_output, len, small, code_of) (refl, refl, refl)
  | inr null ↦ rw (respond, write_output, null, code_of) (refl, refl, refl)
]

cn_mesh_open_realtime-from_bytes :
    (c : Crypto) (b : CnMeshHandle) {p : Packet} (raw aad : List ℕ) (now_ms : ℕ) (out : Output)
    → from_bytes raw ≡ ok p
    → cn_mesh_open_realtime c (some b) (bytes raw) (bytes aad) now_ms out
      ≡ respond
          (open_realtime c b.node p aad now_ms).0
          out
          (record b { node = (open_realtime c b.node p aad now_ms).1 })
unfolding cn_mesh_open_realtime slice_from_raw
cn_mesh_open_realtime-from_bytes c b raw aad now_ms out read =
    rw (cn_mesh_open_realtime, slice_from_raw, read) refl

-- The first packet of a peer, opened with a buffer that is too small for its plaintext, where the
-- window of the node is from 1 to 128: the call fails with -16 and writes no plaintext, and the next
-- call on the handle, if it is for the same packet and in time, with any buffer, fails with -10 and
-- writes none either.
pub cn_mesh_open_realtime-twice :
    (c : Crypto) (b : CnMeshHandle) (p : Packet) (raw aad plaintext : List ℕ) (now_ms later_ms : ℕ)
    (out out' : Output)
    → 1 ≤ b.node.replay_window
    → b.node.replay_window ≤ 128
    → get p.node_id p.epoch b.node.peers ≡ none
    → from_bytes raw ≡ ok p
    → (open_realtime c b.node p aad now_ms).0 ≡ ok plaintext
    → has_room out.buffer (length plaintext) ≡ false
    → abs_diff later_ms p.timestamp_ms ≤ b.node.max_time_drift_ms
    → let first : Call = cn_mesh_open_realtime c (some b) (bytes raw) (bytes aad) now_ms out in
      let again : Call =
        cn_mesh_open_realtime c first.handle (bytes raw) (bytes aad) later_ms out' in
      (first.code ≡ negsuc 15)
      × (first.written.out_buf ≡ none)
      × (again.code ≡ negsuc 9)
      × (again.written.out_buf ≡ none)
unfolding respond code_of to_ffi_code
cn_mesh_open_realtime-twice c b p raw aad plaintext now_ms later_ms out out' low high first read
      opens small timely =
    let n : ChronoMeshNode = (open_realtime c b.node p aad now_ms).1 in
    let (code, empty, left) = respond_small plaintext out (record b { node = n }) small in
    let call = cn_mesh_open_realtime-from_bytes c b raw aad now_ms out read in
    let again =
      cn_mesh_open_realtime-from_bytes c (record b { node = n }) raw aad later_ms out' read in
    let refused =
      open_realtime-twice c b.node p aad plaintext now_ms later_ms low high first opens timely in
    rw (call, opens, left, again, refused) (code, empty, refl, refl)

-- What a call that frames a packet does.
module _ (c : Crypto) (h : CnMeshHandle) (plaintext aad : List ℕ) (now_ms : ℕ) (out : Output) where
  abbrev call : Call
  call = cn_mesh_seal_wal_frame c (some h) (bytes plaintext) (bytes aad) now_ms out

  abbrev left : ChronoMeshNode
  left = (seal_realtime c h.node plaintext aad now_ms).1

  frame_is_lost :
      {p : Packet} (lawful : IsLawful c)
      → length h.wal.head_sha256 ≡ 32
      → (seal_realtime c h.node plaintext aad now_ms).0 ≡ ok p
      → length (to_bytes p) < 2 ^ 32
      → has_room out.buffer (72 + length (to_bytes p)) ≡ false
      → (call.code ≡ negsuc 15)
        × (call.handle ≡ some (record h { node = left; wal = journal_after c lawful h.wal p }))
  unfolding cn_mesh_seal_wal_frame frame_packet slice_from_raw
  frame_is_lost {p} lawful size made fits small =
      let long = length-frame_bytes c lawful [] [] h.wal.head_sha256 (to_bytes p) size in
      let (code, _, handle) =
        respond_small (frame_of c h.wal.head_sha256 p) out
          (record h { node = left; wal = journal_after c lawful h.wal p }) (rw long small) in
      rw
        (
          cn_mesh_seal_wal_frame,
          slice_from_raw,
          made,
          frame_packet,
          encode_append_frame-frame c lawful h.wal p fits,
        )
        (code, handle)

  frame_is_written :
      {raw : List ℕ} (lawful : IsLawful c)
      → call.written.out_buf ≡ some raw
      → (p : Packet) × (length (to_bytes p) < 2 ^ 32) × (raw ≡ frame_of c h.wal.head_sha256 p)
  unfolding cn_mesh_seal_wal_frame frame_packet slice_from_raw
  frame_is_written lawful written =
      elim (Result-cases (seal_realtime c h.node plaintext aad now_ms).0) [
        | inl (p, made) ↦
            let shown =
              rw (cn_mesh_seal_wal_frame, slice_from_raw, made, frame_packet) at written in
            let (fits, same) =
              encode_append_frame-ok c lawful h.wal p
                (respond-out_buf (encode_append_frame c h.wal p).0 out _ shown) in
            (p, fits, same)
        | inr other ↦ absurd (ground arith)
      ]

-- A handle whose journal wrote the frames `log`: a call to seal a frame with a buffer that is too
-- small fails with -16, but the journal has moved on. If the hash of the lost frame is not the
-- head that it follows, then of `log` and the frame that the next call writes, recovery refuses all.
pub cn_mesh_seal_wal_frame_loses :
    (c : Crypto) (h : CnMeshHandle) (ps : List Packet) (p : Packet) (log raw : List ℕ)
    (plaintext aad plaintext' aad' : List ℕ) (now_ms later_ms : ℕ) (out out' : Output)
    → IsLawful c
    → All IsStorable ps
    → append_all c new ps ≡ (ok log, h.wal)
    → (seal_realtime c h.node plaintext aad now_ms).0 ≡ ok p
    → length (to_bytes p) < 2 ^ 32
    → has_room out.buffer (72 + length (to_bytes p)) ≡ false
    → compute_frame_sha256 c h.wal.head_sha256 (to_bytes p) ≢ h.wal.head_sha256
    → let first : Call =
        cn_mesh_seal_wal_frame c (some h) (bytes plaintext) (bytes aad) now_ms out in
      (cn_mesh_seal_wal_frame c first.handle
          (bytes plaintext')
          (bytes aad')
          later_ms
          out').written.out_buf
        ≡ some raw
      → let first : Call =
          cn_mesh_seal_wal_frame c (some h) (bytes plaintext) (bytes aad) now_ms out in
        (first.code ≡ negsuc 15)
        × (recover_from_bytes c (log ++ raw) ≡ err integridad_contexto_corrupta)
cn_mesh_seal_wal_frame_loses c h ps p log raw plaintext aad plaintext' aad' now_ms later_ms out out'
      lawful good wrote made fits small other written =
    let (log_is, last) = append_all-log c lawful new ps good in
    let head : h.wal.head_sha256 ≡ last_head c zeros_32 ps =
      sym (ap (λ r. r.1.head_sha256) wrote) ∙ last in
    let same : log ≡ log_bytes c zeros_32 ps = ground (arith, log_is, wrote) in
    let size : length h.wal.head_sha256 ≡ 32 =
      rw head (last_head-length c lawful zeros_32 ps (length-be 32 0)) in
    let (code, handle) = frame_is_lost c h plaintext aad now_ms out lawful size made fits small in
    let g : CnMeshHandle = record h {
      node = (seal_realtime c h.node plaintext aad now_ms).1;
      wal = journal_after c lawful h.wal p;
    } in
    let (p', fits', raw_is) =
      frame_is_written c g plaintext' aad' later_ms out' lawful (rw handle at written) in
    let gap =
      recover_from_bytes-gap c ps p' (compute_frame_sha256 c h.wal.head_sha256 (to_bytes p)) lawful
        good fits' (length-compute_frame_sha256 c lawful [] [] h.wal.head_sha256 (to_bytes p))
        (λ e. other (e ∙ sym head)) in
    (code, rw (same, raw_is) gap)

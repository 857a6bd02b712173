-- ===== src/Panics/States.antt =====
-- The decoders of a checkpoint, of a snapshot and of a transfer token.
use cripto_endevs_comunity.Base.{
  ℕ, zero, suc, ◌*◌, ◌^◌, not, ◌+◌, ◌≤◌, ◌≡◌, ◌≢◌, arith, List, length, ltb, ◌==◌, ltb→le, refl,
  list_eq, if◌then◌else◌, [], ◌||◌, Bool-cases, inl, inr, ==_iff,
}
use cripto_endevs_comunity.Error.{ok, panic}
use cripto_endevs_comunity.Bytes.{be}
use cripto_endevs_comunity.Bytes.Fields.{field, slice-field}
use cripto_endevs_comunity.Crypto.{Crypto}
use cripto_endevs_comunity.Panics.{
  bind-ne-panic, ok-ne-panic, err-ne-panic, reject-ne-panic, require-ne-panic, slice-ne-panic,
  slice_from-ne-panic, read_be-ne-panic, index-ne-panic, checked_add-ne-panic, try_u32-ne-panic,
  or_error-ne-panic,
}
use cripto_endevs_comunity.Chrono.{ChronoMeshNode, decrypted}
use cripto_endevs_comunity.Chrono.Peers.{PeerMap, insert}
use cripto_endevs_comunity.Chrono.Checkpoint.{
  read_peer, read_peers, decode_raw, decode_checkpoint, mesh_state_magic, mesh_state_version,
  checkpoint_aad,
}
use cripto_endevs_comunity.Ordered.{or_autenticacion}
use cripto_endevs_comunity.Ordered.Snapshot.{
  magic_cnst, snapshot_version_v1, snapshot_version_v2, snapshot_aad, decode_hashes, decode_state,
  import_state,
}

read_peer-ne-panic :
    (offset : ℕ) (raw : List ℕ) → offset + 36 ≤ length raw → read_peer offset raw ≢ panic
unfolding read_peer
read_peer-ne-panic offset raw there = read_be-ne-panic 4 offset raw (omega arith) (λ node.
    read_be-ne-panic 8 (offset + 4) raw (omega arith) (λ epoch.
      read_be-ne-panic 8 (offset + 12) raw (omega arith)
        (λ highest. read_be-ne-panic 16 (offset + 20) raw (omega arith) (λ bitmap. ok-ne-panic))))

read_peers-ne-panic :
    (rounds offset : ℕ) (raw : List ℕ) (peers : PeerMap)
    → offset + rounds * 36 ≤ length raw
    → read_peers rounds offset raw peers ≢ panic
unfolding read_peers
read_peers-ne-panic zero offset raw peers there = ok-ne-panic
read_peers-ne-panic (suc rounds) offset raw peers there =
    bind-ne-panic (read_peer offset raw) (read_peer-ne-panic offset raw (omega arith)) (λ e same.
      read_peers-ne-panic rounds (offset + 36) raw (insert e.node e.epoch e.state peers)
        (omega arith))

decode_raw-ne-panic : (n : ChronoMeshNode) (raw : List ℕ) → decode_raw n raw ≢ panic
unfolding decode_raw
decode_raw-ne-panic n raw = reject-ne-panic (ltb (length raw) 56) _ _ (λ long.
    let there : 56 ≤ length raw = ltb→le _ _ long in
    read_be-ne-panic 4 0 raw (omega arith) (λ node.
      require-ne-panic (node == n.node_id) _ _ (λ same.
        read_be-ne-panic 8 4 raw (omega arith) (λ epoch.
          read_be-ne-panic 8 12 raw (omega arith) (λ tx_seq.
            slice-ne-panic 20 52 raw (omega arith) (omega arith) (λ hash.
              read_be-ne-panic 4 52 raw (omega arith) (λ count.
                reject-ne-panic (not (ltb (count * 36) (2 ^ 64))) _ _ (λ fits.
                  checked_add-ne-panic 56 (count * 36) _ _ (
                    require-ne-panic (length raw == 56 + count * 36) _ _ (λ whole.
                      let size : length raw ≡ 56 + count * 36 =
                        (==_iff (length raw) (56 + count * 36)).0 whole in
                      bind-ne-panic (read_peers count 56 raw [])
                        (read_peers-ne-panic count 56 raw [] (omega arith))
                        (λ peers read. ok-ne-panic)))))))))))

pub decode_checkpoint-ne-panic :
    (c : Crypto) (n : ChronoMeshNode) (bs wrap_key : List ℕ)
    → decode_checkpoint c n bs wrap_key ≢ panic
unfolding decode_checkpoint
decode_checkpoint-ne-panic c n bs wrap_key = reject-ne-panic (ltb (length bs) 33) _ _ (λ long.
    let there : 33 ≤ length bs = ltb→le _ _ long in
    slice-ne-panic 0 4 bs (omega arith) (omega arith) (λ magic.
      require-ne-panic (list_eq magic mesh_state_magic) _ _ (λ same.
        index-ne-panic 4 bs (omega arith) (λ version.
          require-ne-panic (version == mesh_state_version) _ _ (λ known.
            slice-ne-panic 5 17 bs (omega arith) (omega arith) (λ nonce.
              slice_from-ne-panic 17 bs (omega arith) (λ ciphertext.
                bind-ne-panic (decrypted (c.decrypt wrap_key nonce ciphertext (checkpoint_aad n)))
                  (or_error-ne-panic (c.decrypt wrap_key nonce ciphertext (checkpoint_aad n))
                    decrypted err-ne-panic (λ raw. ok-ne-panic))
                  (λ raw opened. decode_raw-ne-panic n raw))))))))

-- The size of a state before its context.
abbrev fixed_len : ℕ → ℕ
fixed_len version = if version == snapshot_version_v2 then 156 else 92

fixed_len_large : (version : ℕ) → 92 ≤ fixed_len version
fixed_len_large version = elim (Bool-cases (version == 2)) [
  | inl v2 ↦ rw v2 (omega arith)
  | inr v1 ↦ rw v1 (omega arith)
]

-- The hashes are read where the state is long enough for them, and the length of the context stands
-- in the last four bytes before it.
decode_hashes-ok :
    (version : ℕ) (bs : List ℕ)
    → fixed_len version ≤ length bs
    → (tx rx : List ℕ) × (offset : ℕ) × (decode_hashes version bs ≡ ok (tx, rx, offset))
      × (offset + 4 ≡ fixed_len version)
unfolding decode_hashes
decode_hashes-ok version bs there = elim (Bool-cases (version == 2)) [
  | inl v2 ↦
      let long : 156 ≤ length bs = rw v2 at there in
      let tx = slice-field 32 88 120 bs refl (omega arith) in
      let rx = slice-field 32 120 152 bs refl (omega arith) in
      (field 32 88 bs, field 32 120 bs, 152, rw (v2, tx, rx) refl, rw v2 refl)
  | inr v1 ↦ (be 32 0, be 32 0, 88, rw v1 refl, rw v1 refl)
]

decode_state-ne-panic :
    (version : ℕ) (bs context : List ℕ) → decode_state version bs context ≢ panic
unfolding decode_state
decode_state-ne-panic version bs context =
    reject-ne-panic (ltb (length bs) (fixed_len version)) _ _ (λ long.
      let there : fixed_len version ≤ length bs = ltb→le _ _ long in
      let large = fixed_len_large version in
      let (tx, rx, offset, hashes, place) = decode_hashes-ok version bs there in
      slice-ne-panic 0 32 bs (omega arith) (omega arith) (λ tx_key.
        slice-ne-panic 32 64 bs (omega arith) (omega arith) (λ rx_key.
          read_be-ne-panic 8 64 bs (omega arith) (λ tx_seq.
            read_be-ne-panic 8 72 bs (omega arith) (λ rx_seq.
              read_be-ne-panic 8 80 bs (omega arith) (λ epoch. rw hashes (
                read_be-ne-panic 4 offset bs (omega arith) (λ len.
                  checked_add-ne-panic (fixed_len version) len _ _ (
                    require-ne-panic (fixed_len version + len == length bs) _ _ (λ whole.
                      let size : fixed_len version + len ≡ length bs =
                        (==_iff (fixed_len version + len) (length bs)).0 whole in
                      slice-ne-panic (fixed_len version) (fixed_len version + len) bs (omega arith)
                        (omega arith)
                        (λ own.
                          require-ne-panic (list_eq own context) _ _
                            (λ same. ok-ne-panic))))))))))))

snapshot_aad-ne-panic : (version : ℕ) (context : List ℕ) → snapshot_aad version context ≢ panic
unfolding snapshot_aad
snapshot_aad-ne-panic version context = try_u32-ne-panic (length context) _ _ ok-ne-panic

pub import_state-ne-panic :
    (c : Crypto) (bs wrap context : List ℕ) → import_state c bs wrap context ≢ panic
unfolding import_state
import_state-ne-panic c bs wrap context = reject-ne-panic (ltb (length bs) 33) _ _ (λ long.
    let there : 33 ≤ length bs = ltb→le _ _ long in
    slice-ne-panic 0 4 bs (omega arith) (omega arith) (λ magic.
      require-ne-panic (list_eq magic magic_cnst) _ _ (λ same.
        index-ne-panic 4 bs (omega arith) (λ version.
          require-ne-panic (version == snapshot_version_v1 || version == snapshot_version_v2) _ _
            (λ known. slice-ne-panic 5 17 bs (omega arith) (omega arith) (λ nonce.
              slice_from-ne-panic 17 bs (omega arith) (λ ciphertext.
                bind-ne-panic (snapshot_aad version context) (snapshot_aad-ne-panic version context)
                  (λ aad made.
                    bind-ne-panic (or_autenticacion (c.decrypt wrap nonce ciphertext aad))
                      (or_error-ne-panic (c.decrypt wrap nonce ciphertext aad) or_autenticacion
                        err-ne-panic (λ plaintext. ok-ne-panic))
                      (λ plaintext opened. decode_state-ne-panic version plaintext context)))))))))

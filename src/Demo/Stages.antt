-- ===== src/Demo/Stages.antt =====
-- The stages of the example, each on the state that the one before left.
use cripto_endevs_comunity.Base.{
  ℕ, ◌+◌, ◌^◌, ◌<◌, ◌≡◌, refl, ap, ◌∙◌, some, true, List, [], length, arith, ltb, ◌==◌, inl, inr,
  if◌then◌else◌, lt→ltb,
}
use cripto_endevs_comunity.Error.{ok, Result-cases}
use cripto_endevs_comunity.Bytes.{IsBytes, try_u32}
use cripto_endevs_comunity.Bytes.Compare.{length-xor_bytes}
use cripto_endevs_comunity.Crypto.{Crypto, IsLawful}
use cripto_endevs_comunity.Packet.{Packet, build_internal_aad_v3}
use cripto_endevs_comunity.Chrono.{
  ChronoMeshNode, seal_packet, seal_realtime, draw_sequence, note_packet, derive_packet_crypto,
  packet_digest, fold_packet_into_integrity_hash,
}
use cripto_endevs_comunity.Packet.RoundTrip.{length-to_bytes_v3}
use cripto_endevs_comunity.Chrono.Mesh.{seal_realtime-SealedAs}
use cripto_endevs_comunity.Chrono.Ranges.{IsSender, seal_realtime-IsPacket, length-ciphertext}
use cripto_endevs_comunity.Wal.Log.{IsStorable}
use cripto_endevs_comunity.Demo.{emit}

-- Encryption succeeds on messages of less than 2^32 bytes.
unfoldable pub Encrypts : Crypto → Type 0
Encrypts c =
    (key nonce msg aad : List ℕ)
    → length msg < 2 ^ 32
    → (ct : List ℕ) × (c.encrypt key nonce msg aad ≡ some ct)

-- The node of the example after `k` packets.
pub record IsRunning (n : ChronoMeshNode) (hash : List ℕ) (k : ℕ) : Type 0 where
  pub node_id : n.node_id ≡ 10
  pub epoch : n.epoch ≡ 1
  pub tx_seq : n.tx_seq ≡ k
  pub peers : n.peers ≡ []
  pub context : n.context_domain_hash ≡ hash
  pub integrity : length n.multiset_integrity_hash ≡ 32

build_internal_aad_v3_total :
    (flags node_id epoch sequence timestamp_ms : ℕ) (hash aad : List ℕ)
    → length aad < 100
    → (internal : List ℕ) × (build_internal_aad_v3 flags node_id epoch sequence timestamp_ms hash
          aad
        ≡ ok internal)
unfolding build_internal_aad_v3 try_u32
build_internal_aad_v3_total flags node_id epoch sequence timestamp_ms hash aad small =
    let fits : ltb (length aad) (2 ^ 32) ≡ true = lt→ltb _ _ (omega arith) in
    elim (Result-cases (build_internal_aad_v3 flags node_id epoch sequence timestamp_ms hash aad)) [
      | inl made ↦ made
      | inr other ↦ absurd (ground arith)
    ]

module _ (c : Crypto) (lawful : IsLawful c) (encrypts : Encrypts c) (n : ChronoMeshNode)
    (hash plaintext aad : List ℕ) (k now : ℕ) (running : IsRunning n hash k) (few : k < 5)
    (small : length plaintext < 100) (small_aad : length aad < 100) (plain : IsBytes plaintext)
    (time : now < 2 ^ 64) where
  seal_packet_total : (p : Packet) × (seal_packet c n n.tx_seq plaintext aad now ≡ ok p)
  unfolding seal_packet Encrypts
  seal_packet_total =
      let at : n.tx_seq ≡ k = running.tx_seq in
      let okm : List ℕ × List ℕ = derive_packet_crypto c n n.node_id n.epoch n.tx_seq now in
      let flags : ℕ = if length aad == 0 then 0 else 1 in
      let (internal, made) =
        build_internal_aad_v3_total flags n.node_id n.epoch n.tx_seq now n.context_domain_hash aad
          small_aad in
      let (ct, done) = encrypts okm.0 okm.1 plaintext internal (omega arith) in
      elim (Result-cases (seal_packet c n n.tx_seq plaintext aad now)) [
        | inl made ↦ made
        | inr other ↦ absurd (ground arith)
      ]

  -- The node behind the packet.
  abbrev sealed_by : Packet → ChronoMeshNode
  sealed_by p = note_packet c (draw_sequence n) p

  seal_realtime_total : (p : Packet) × (seal_realtime c n plaintext aad now ≡ (ok p, sealed_by p))
  unfolding seal_realtime
  seal_realtime_total = let (p, e) = seal_packet_total in (p, rw (e, seal_realtime) refl)

  sealed_by-IsRunning : (p : Packet) → IsRunning (sealed_by p) hash (k + 1)
  unfolding note_packet draw_sequence fold_packet_into_integrity_hash
  sealed_by-IsRunning p = record {
    node_id = running.node_id;
    epoch = running.epoch;
    tx_seq = let at : n.tx_seq ≡ k = running.tx_seq in omega arith;
    peers = running.peers;
    context = running.context;
    integrity = length-xor_bytes n.multiset_integrity_hash (packet_digest c p) ∙ running.integrity;
  }

  sender : IsSender n
  sender = record {
    node_id = rw running.node_id (omega arith);
    epoch = rw running.epoch (omega arith);
    tx_seq = rw running.tx_seq (omega arith);
  }

  seal_realtime-IsStorable :
      {p : Packet} → (seal_realtime c n plaintext aad now).0 ≡ ok p → IsStorable p
  seal_realtime-IsStorable {p} h =
      let valid = seal_realtime-IsPacket c n plaintext aad now lawful sender time plain h in
      let size = length-ciphertext c n plaintext aad now lawful sender time plain h in
      let version : p.version ≡ 3 = (seal_realtime-SealedAs c n plaintext aad now h).version in
      record {
        valid = valid;
        known = rw version (omega arith, omega arith);
        tagged = omega (arith, size);
        fits = omega (arith, length-to_bytes_v3 p version valid.nonce, size);
      }

  -- A packet is sealed, can be stored, and leaves the node running.
  pub emit_total :
      (p : Packet) × (n' : ChronoMeshNode) × (emit c n plaintext aad now ≡ ok (p, n'))
      × IsStorable p
      × IsRunning n' hash (k + 1)
  unfolding emit
  emit_total =
      let (p, e) = seal_realtime_total in
      (
        p,
        sealed_by p,
        rw (e, emit) refl,
        seal_realtime-IsStorable (ap (λ r. r.0) e),
        sealed_by-IsRunning p,
      )

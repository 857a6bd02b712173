-- ===== src/Chrono/Ranges.antt =====
-- What a node seals is in the ranges of the wire format, so that its bytes are read back.
use cripto_endevs_comunity.Base.{
  ℕ, ◌+◌, ◌^◌, ◌<◌, ◌≡◌, refl, sym, ap, subst, List, length, drop, arith, ◌==◌, true, inl, inr,
  Option-cases, if◌then◌else◌, length-drop, All-drop,
}
use cripto_endevs_comunity.Error.{ok, Result-cases}
use cripto_endevs_comunity.Bytes.{IsByte, IsBytes}
use cripto_endevs_comunity.Crypto.{Crypto, IsLawful}
use cripto_endevs_comunity.Packet.{Packet, IsPacket, to_bytes, from_bytes, build_internal_aad_v3}
use cripto_endevs_comunity.Packet.RoundTrip.{from_bytes-to_bytes}
use cripto_endevs_comunity.Chrono.{
  ChronoMeshNode, packet_okm, derive_packet_crypto, seal_packet, seal_realtime,
}
use cripto_endevs_comunity.Chrono.Mesh.{SealedAs, seal_realtime-SealedAs}

-- The ranges of the Rust types of the fields that a packet carries.
pub record IsSender (n : ChronoMeshNode) : Type 0 where
  pub node_id : n.node_id < 2 ^ 32
  pub epoch : n.epoch < 2 ^ 64
  pub tx_seq : n.tx_seq < 2 ^ 64

module _ (c : Crypto) (n : ChronoMeshNode) (plaintext aad : List ℕ) (now_ms : ℕ) where
  seal_packet-flags :
      {p : Packet} → seal_packet c n n.tx_seq plaintext aad now_ms ≡ ok p → p.flags < 256
  unfolding seal_packet
  seal_packet-flags h =
      let flags : ℕ = if length aad == 0 then 0 else 1 in
      let okm : List ℕ × List ℕ = derive_packet_crypto c n n.node_id n.epoch n.tx_seq now_ms in
      let small : flags < 256 = ground arith in
      elim (Result-cases
        (build_internal_aad_v3 flags n.node_id n.epoch n.tx_seq now_ms n.context_domain_hash aad)) [
          | inl (internal, e) ↦ elim (Option-cases (c.encrypt okm.0 okm.1 plaintext internal)) [
            | inl failed ↦ absurd (ground arith)
            | inr (ct, done) ↦ ground arith
          ]
          | inr other ↦ absurd (ground arith)
        ]

  seal_realtime-flags :
      {p : Packet} → (seal_realtime c n plaintext aad now_ms).0 ≡ ok p → p.flags < 256
  unfolding seal_realtime
  seal_realtime-flags {p} h = elim (Result-cases (seal_packet c n n.tx_seq plaintext aad now_ms)) [
    | inl (q, e) ↦
        let same : q ≡ p = ground arith in
        subst (λ (r : Packet). r.flags < 256) same (seal_packet-flags e)
    | inr other ↦ absurd (ground arith)
  ]

  module _ (lawful : IsLawful c) (node_id epoch seq timestamp_ms : ℕ) {key nonce : List ℕ}
      (h : derive_packet_crypto c n node_id epoch seq timestamp_ms ≡ (key, nonce)) where
    abbrev okm : List ℕ
    okm = packet_okm c n node_id epoch seq timestamp_ms

    nonce_is : nonce ≡ drop 32 okm
    unfolding derive_packet_crypto
    nonce_is = sym (ap (λ r. r.1) h)

    length-nonce : length nonce ≡ 12
    unfolding packet_okm
    length-nonce =
        rw nonce_is (omega (arith, length-drop 32 okm, lawful.length-expand n.packet_prk _ 44))

    nonce-IsBytes : IsBytes nonce
    unfolding packet_okm
    nonce-IsBytes = rw nonce_is (All-drop IsByte 32 okm (lawful.expand-IsBytes n.packet_prk _ 44))

  module _ (lawful : IsLawful c) (ranges : IsSender n) (time : now_ms < 2 ^ 64)
      (plain : IsBytes plaintext) {p : Packet}
      (h : (seal_realtime c n plaintext aad now_ms).0 ≡ ok p) where
    abbrev sealed : SealedAs c n plaintext aad now_ms p
    sealed = seal_realtime-SealedAs c n plaintext aad now_ms h

    pub length-ciphertext : length p.ciphertext ≡ length plaintext + 16
    length-ciphertext = lawful.length-encrypt _ _ _ _ _ sealed.encrypts

    pub seal_realtime-IsPacket : IsPacket p
    seal_realtime-IsPacket = record {
      version = rw sealed.version (omega arith);
      flags = seal_realtime-flags h;
      node_id = rw sealed.node_id ranges.node_id;
      epoch = rw sealed.epoch ranges.epoch;
      sequence = rw sealed.sequence ranges.tx_seq;
      timestamp_ms = rw sealed.timestamp_ms time;
      nonce = length-nonce lawful _ _ _ _ sealed.derived;
      nonce_bytes = nonce-IsBytes lawful _ _ _ _ sealed.derived;
      ciphertext = lawful.encrypt-IsBytes _ _ _ _ _ plain sealed.encrypts;
    }

    -- The bytes of a packet that a node sealed are read back.
    pub from_bytes-seal_realtime : from_bytes (to_bytes p) ≡ ok p
    from_bytes-seal_realtime =
        let version : (p.version == 3) ≡ true = rw sealed.version refl in
        rw version at (
          from_bytes-to_bytes p seal_realtime-IsPacket (omega (arith, length-ciphertext))
            (omega (arith, sealed.version), omega (arith, sealed.version)))

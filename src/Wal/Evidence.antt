-- ===== src/Wal/Evidence.antt =====
-- What the bytes of a journal must be for the scan to take a frame of them.
use cripto_endevs_comunity.Base.{
  ℕ, ◌+◌, ◌-◌, ◌^◌, ◌≤◌, ◌<◌, ◌≡◌, refl, sym, ap, ◌∙◌, List, [], ◌∷◌, ◌++◌, length, drop, arith,
  ltb, ltb→le, ◌⊎◌, inl, inr, Bool-cases, append_assoc, list_eq, list_eq_sound,
}
use cripto_endevs_comunity.Error.{
  Error, ok, err, Result-cases, paquete_corrupto, integridad_contexto_corrupta,
}
use cripto_endevs_comunity.Bytes.{IsBytes, be, from_be, slice, read_be, checked_add}
use cripto_endevs_comunity.Bytes.Fields.{
  field, length-field, field-IsBytes, slice-field, read_be-field, field_join, be-field, field-lt,
}
use cripto_endevs_comunity.Crypto.{Crypto, IsLawful}
use cripto_endevs_comunity.Packet.{Packet, to_bytes, from_bytes}
use cripto_endevs_comunity.Packet.Canonical.{from_bytes-ne-panic, to_bytes-from_bytes}
use cripto_endevs_comunity.Wal.{
  Scan, complete, truncated, scan_header, scan_frame, constant_time_eq_32, compute_frame_sha256,
  frame_bytes, magic_wal_frame,
}
use cripto_endevs_comunity.Wal.Frames.{constant_time_eq_32_sound}
use cripto_endevs_comunity.Wal.Log.{next_head, frame_of}

-- The header of a frame that is complete.
pub record IsHeader (bs : List ℕ) (offset n : ℕ) : Type 0 where
  pub whole : offset + (72 + n) ≤ length bs
  pub magic : field 4 offset bs ≡ magic_wal_frame
  pub pkt_len : n ≡ from_be (field 4 (offset + 4) bs)

module _ (bs : List ℕ) (offset : ℕ) where
  -- The head of a round never panics.
  pub scan_header-cases :
      offset ≤ length bs
      → ((e : Error) × (scan_header bs offset ≡ err e))
        ⊎ (scan_header bs offset ≡ ok truncated)
        ⊎ ((n : ℕ) × (scan_header bs offset ≡ ok (complete n)) × IsHeader bs offset n)
  unfolding scan_header checked_add
  scan_header-cases h = elim (Bool-cases (ltb (length bs - offset) 72)) [
    | inl short ↦ inr (inl (rw (scan_header, short) refl))
    | inr long ↦
        let enough : 72 ≤ length bs - offset = ltb→le _ _ long in
        let magic : slice offset (offset + 4) bs ≡ ok (field 4 offset bs) =
          slice-field 4 offset (offset + 4) bs refl (omega arith) in
        let n : ℕ = from_be (field 4 (offset + 4) bs) in
        let size : read_be 4 (offset + 4) bs ≡ ok n =
          read_be-field 4 (offset + 4) bs (omega arith) in
        elim (Bool-cases (list_eq (field 4 offset bs) magic_wal_frame)) [
          | inl good ↦ elim (Bool-cases (ltb (72 + n) (2 ^ 64))) [
            | inl fits ↦ elim (Bool-cases (ltb (length bs - offset) (72 + n))) [
              | inl cut ↦
                  inr (inl (rw (scan_header, long, magic, size, good, checked_add, fits, cut) refl))
              | inr all ↦ inr (
                  inr (
                    n,
                    rw (scan_header, long, magic, size, good, checked_add, fits, all) refl,
                    record {
                      whole = omega (arith, ltb→le _ _ all);
                      magic = list_eq_sound _ _ good;
                      pkt_len = refl;
                    },
                  ))
            ]
            | inr huge ↦ inl (
              paquete_corrupto,
              rw (scan_header, long, magic, size, good, checked_add, huge) refl,
            )
          ]
          | inr bad ↦ inl (paquete_corrupto, rw (scan_header, long, magic, size, bad) refl)
        ]
  ]

-- A frame that was accepted at the place of `s`.
pub record IsAccepted (c : Crypto) (bs : List ℕ) (s : Scan) (n : ℕ) (s' : Scan) : Type 0 where
  pub packet : Packet
  pub prev : field 32 (s.offset + 8) bs ≡ s.expected_prev_sha
  pub parsed : from_bytes (field n (s.offset + 40) bs) ≡ ok packet
  pub stored :
      field 32 (s.offset + 40 + n) bs
      ≡ compute_frame_sha256 c s.expected_prev_sha (field n (s.offset + 40) bs)
  pub next : s' ≡ record {
    offset = s.offset + (72 + n);
    expected_prev_sha = compute_frame_sha256 c s.expected_prev_sha (field n (s.offset + 40) bs);
    packets = s.packets ++ (packet ∷ []);
  }

module _ (c : Crypto) (lawful : IsLawful c) (bs : List ℕ) (s : Scan) (n : ℕ)
    (whole : s.offset + (72 + n) ≤ length bs) (size : length s.expected_prev_sha ≡ 32) where
  pub scan_frame-cases :
      ((e : Error) × (scan_frame c bs s n ≡ err e))
      ⊎ ((s' : Scan) × (scan_frame c bs s n ≡ ok s') × IsAccepted c bs s n s')
  unfolding scan_frame compute_frame_sha256
  scan_frame-cases =
      let o : ℕ = s.offset in
      let prev : slice (o + 8) (o + 40) bs ≡ ok (field 32 (o + 8) bs) =
        slice-field 32 (o + 8) (o + 40) bs (omega arith) (omega arith) in
      let body : List ℕ = field n (o + 40) bs in
      let pkt : slice (o + 40) (o + 40 + n) bs ≡ ok body =
        slice-field n (o + 40) (o + 40 + n) bs refl (omega arith) in
      let stored : slice (o + 40 + n) (o + (72 + n)) bs ≡ ok (field 32 (o + 40 + n) bs) =
        slice-field 32 (o + 40 + n) (o + (72 + n)) bs (omega arith) (omega arith) in
      let sha : List ℕ = compute_frame_sha256 c s.expected_prev_sha body in
      let sha_size : length sha ≡ 32 = lawful.length-sha256 _ in
      elim (Bool-cases (constant_time_eq_32 (field 32 (o + 8) bs) s.expected_prev_sha)) [
        | inl chained ↦ elim (Bool-cases (constant_time_eq_32 (field 32 (o + 40 + n) bs) sha)) [
          | inl hashed ↦ elim (Result-cases (from_bytes body)) [
            | inl (p, parsed) ↦ inr (
              record {
                offset = o + (72 + n);
                expected_prev_sha = sha;
                packets = s.packets ++ (p ∷ []);
              },
              rw (scan_frame, prev, pkt, stored, chained, hashed, parsed) refl,
              record {
                packet = p;
                prev = constant_time_eq_32_sound _ _ size chained;
                parsed = parsed;
                stored = constant_time_eq_32_sound _ _ sha_size hashed;
                next = refl;
              },
            )
            | inr (inl (e, bad)) ↦
                inl (e, rw (scan_frame, prev, pkt, stored, chained, hashed, bad) refl)
            | inr (inr p) ↦ absurd (from_bytes-ne-panic body p)
          ]
          | inr bad ↦
              inl (
                integridad_contexto_corrupta,
                rw (scan_frame, prev, pkt, stored, chained, bad) refl,
              )
        ]
        | inr bad ↦ inl (integridad_contexto_corrupta, rw (scan_frame, prev, pkt, stored, bad) refl)
      ]

-- The frame that was accepted is the frame that a journal writes there.
module _ (c : Crypto) (bs : List ℕ) (b : IsBytes bs) (s : Scan) (n : ℕ) {s' : Scan}
    (header : IsHeader bs s.offset n) (x : IsAccepted c bs s n s') where
  abbrev o : ℕ
  o = s.offset

  abbrev body : List ℕ
  body = field n (o + 40) bs

  body-to_bytes : to_bytes x.packet ≡ body
  body-to_bytes = to_bytes-from_bytes body (field-IsBytes n (o + 40) bs b) x.parsed

  length-body : length body ≡ n
  length-body =
      let whole : o + (72 + n) ≤ length bs = header.whole in
      length-field n (o + 40) bs (omega arith)

  pub accepted-length : length (to_bytes x.packet) ≡ n
  accepted-length = ap length body-to_bytes ∙ length-body

  pub accepted-fits : length (to_bytes x.packet) < 2 ^ 32
  accepted-fits =
      let whole : o + (72 + n) ≤ length bs = header.whole in
      let small : from_be (field 4 (o + 4) bs) < 256 ^ 4 = field-lt 4 (o + 4) bs b (omega arith) in
      omega (arith, ap length body-to_bytes, length-body, header.pkt_len, small)

  size_field : be 4 n ≡ field 4 (o + 4) bs
  size_field =
      let whole : o + (72 + n) ≤ length bs = header.whole in
      ap (be 4) header.pkt_len ∙ be-field 4 (o + 4) bs b (omega arith)

  pub accepted-next : s' ≡ record {
    offset = o + (72 + n);
    expected_prev_sha = next_head c s.expected_prev_sha x.packet;
    packets = s.packets ++ (x.packet ∷ []);
  }
  accepted-next = rw body-to_bytes x.next

  fields_join :
      field 4 o bs
        ++ (field 4 (o + 4) bs
            ++ (field 32 (o + 8) bs
                ++ (body ++ (field 32 (o + 40 + n) bs ++ drop (o + (72 + n)) bs))))
      ≡ drop o bs
  fields_join =
      rw
        (
          field_join 32 (o + 40 + n) (o + (72 + n)) bs (omega arith),
          field_join n (o + 40) (o + 40 + n) bs refl,
          field_join 32 (o + 8) (o + 40) bs (omega arith),
          field_join 4 (o + 4) (o + 8) bs (omega arith),
          field_join 4 o (o + 4) bs refl,
        )
        refl

  pub accepted-frame_of :
      drop o bs ≡ frame_of c s.expected_prev_sha x.packet ++ drop (o + (72 + n)) bs
  unfolding frame_bytes
  accepted-frame_of =
      let joined = rw (header.magic, ← size_field, x.prev, x.stored) at fields_join in
      rw (body-to_bytes, length-body, append_assoc, append_assoc, append_assoc) (sym joined)

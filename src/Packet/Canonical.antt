-- ===== src/Packet/Canonical.antt =====
-- `from_bytes` on any bytes: it never panics, and what it accepts is written back byte for byte.
use cripto_endevs_comunity.Base.{
  ℕ, ◌≤◌, ◌<◌, ◌≡◌, ◌≢◌, refl, ◌∙◌, ap, sym, subst, List, ◌∷◌, length, arith, drop, length-drop,
  All-drop, ltb, le→ltb, if◌then◌else◌, ◌⊎◌, inl, inr, ◌==◌,
}
use cripto_endevs_comunity.Error.{Result, ok, err, panic, paquete_corrupto, version_no_soportada}
use cripto_endevs_comunity.Bytes.{IsByte, IsBytes, from_be}
use cripto_endevs_comunity.Bytes.Slices.{slice_from-ok}
use cripto_endevs_comunity.Bytes.Fields.{
  field, byte_at, length-field, field-IsBytes, slice-field, read_be-field, index-byte_at,
  byte_at-IsByte, field_join, byte_join, be-field, field-lt,
}
use cripto_endevs_comunity.Packet.{
  Packet, IsPacket, to_bytes, from_bytes, bytes_v1, bytes_v2, bytes_v3, parse_v1, parse_v2,
  parse_v3, parse_body,
}
use cripto_endevs_comunity.Packet.RoundTrip.{IsKnown}

-- The packet that stands at the places of each layout.
abbrev packet_v1 : List ℕ → Packet
packet_v1 bs = record {
  version = 1;
  flags = 0;
  node_id = 0;
  epoch = 0;
  sequence = from_be (field 8 1 bs);
  timestamp_ms = 0;
  nonce = field 12 9 bs;
  ciphertext = drop 21 bs;
}

abbrev packet_v2 : List ℕ → Packet
packet_v2 bs = record {
  version = 2;
  flags = byte_at 1 bs;
  node_id = 0;
  epoch = 0;
  sequence = from_be (field 8 2 bs);
  timestamp_ms = 0;
  nonce = field 12 10 bs;
  ciphertext = drop 22 bs;
}

abbrev packet_v3 : List ℕ → Packet
packet_v3 bs = record {
  version = 3;
  flags = byte_at 1 bs;
  node_id = from_be (field 4 2 bs);
  epoch = from_be (field 8 6 bs);
  sequence = from_be (field 8 14 bs);
  timestamp_ms = from_be (field 8 22 bs);
  nonce = field 12 30 bs;
  ciphertext = drop 42 bs;
}

module _ (bs : List ℕ) where
  parse_v1-ok : 37 ≤ length bs → parse_v1 bs 1 ≡ ok (packet_v1 bs)
  unfolding parse_v1
  parse_v1-ok h =
      rw
        (
          le→ltb (length bs) 37 h,
          read_be-field 8 1 bs (omega arith),
          slice-field 12 9 21 bs refl (omega arith),
          slice_from-ok 21 bs (omega arith),
        )
        refl

  parse_v2-ok : 38 ≤ length bs → parse_v2 bs 2 ≡ ok (packet_v2 bs)
  unfolding parse_v2
  parse_v2-ok h =
      rw
        (
          le→ltb (length bs) 38 h,
          index-byte_at 1 bs (omega arith),
          read_be-field 8 2 bs (omega arith),
          slice-field 12 10 22 bs refl (omega arith),
          slice_from-ok 22 bs (omega arith),
        )
        refl

  parse_v3-ok : 58 ≤ length bs → parse_v3 bs 3 ≡ ok (packet_v3 bs)
  unfolding parse_v3
  parse_v3-ok h =
      rw
        (
          le→ltb (length bs) 58 h,
          index-byte_at 1 bs (omega arith),
          read_be-field 4 2 bs (omega arith),
          read_be-field 8 6 bs (omega arith),
          read_be-field 8 14 bs (omega arith),
          read_be-field 8 22 bs (omega arith),
          slice-field 12 30 42 bs refl (omega arith),
          slice_from-ok 42 bs (omega arith),
        )
        refl

  parse_v1_short : length bs < 37 → parse_v1 bs 1 ≡ err paquete_corrupto
  unfolding parse_v1
  parse_v1_short h = ground arith

  parse_v2_short : length bs < 38 → parse_v2 bs 2 ≡ err paquete_corrupto
  unfolding parse_v2
  parse_v2_short h = ground arith

  parse_v3_short : length bs < 58 → parse_v3 bs 3 ≡ err paquete_corrupto
  unfolding parse_v3
  parse_v3_short h = ground arith

-- What `from_bytes` answers, by the length and the first byte.
abbrev pub verdict : List ℕ → Result Packet
verdict bs =
    if ltb (length bs) 37
    then err paquete_corrupto
    else if byte_at 0 bs == 3
    then (if ltb (length bs) 58 then err paquete_corrupto else ok (packet_v3 bs))
    else if byte_at 0 bs == 2
    then (if ltb (length bs) 38 then err paquete_corrupto else ok (packet_v2 bs))
    else if byte_at 0 bs == 1
    then ok (packet_v1 bs)
    else err (version_no_soportada (byte_at 0 bs))

from_bytes-verdict : (bs : List ℕ) → from_bytes bs ≡ verdict bs
unfolding from_bytes parse_body
from_bytes-verdict bs = ground (
  arith,
  index-byte_at 0 bs,
  parse_v1-ok bs,
  parse_v2-ok bs,
  parse_v3-ok bs,
  parse_v2_short bs,
  parse_v3_short bs,
)

abbrev Good : Packet → Type 0
Good p = IsPacket p × IsKnown p.version × (16 ≤ length p.ciphertext)

-- An accepted message has one of the three layouts.
accepted :
    (bs : List ℕ) {p : Packet}
    → verdict bs ≡ ok p
    → ((37 ≤ length bs) × (p ≡ packet_v1 bs))
      ⊎ (((38 ≤ length bs) × (p ≡ packet_v2 bs)) ⊎ ((58 ≤ length bs) × (p ≡ packet_v3 bs)))
accepted bs {p} h = ground arith

-- No bytes make `from_bytes` panic: every slice and index is in range.
pub from_bytes-ne-panic : (bs : List ℕ) → from_bytes bs ≢ panic
from_bytes-ne-panic bs h = ground (arith, from_bytes-verdict bs)

head_join : (v : ℕ) (bs : List ℕ) → 0 < length bs → byte_at 0 bs ≡ v → v ∷ drop 1 bs ≡ bs
head_join v bs h e = ap (λ (t : ℕ). t ∷ drop 1 bs) (sym e) ∙ byte_join 0 bs h

module _ (bs : List ℕ) (b : IsBytes bs) where
  bytes-packet_v1 : 37 ≤ length bs → byte_at 0 bs ≡ 1 → bytes_v1 (packet_v1 bs) ≡ bs
  unfolding bytes_v1
  bytes-packet_v1 h e =
      rw (be-field 8 1 bs b (omega arith), field_join 12 9 21 bs refl, field_join 8 1 9 bs refl)
        (head_join 1 bs (omega arith) e)

  bytes-packet_v2 : 38 ≤ length bs → byte_at 0 bs ≡ 2 → bytes_v2 (packet_v2 bs) ≡ bs
  unfolding bytes_v2
  bytes-packet_v2 h e =
      rw
        (
          be-field 8 2 bs b (omega arith),
          field_join 12 10 22 bs refl,
          field_join 8 2 10 bs refl,
          byte_join 1 bs (omega arith),
        )
        (head_join 2 bs (omega arith) e)

  bytes-packet_v3 : 58 ≤ length bs → byte_at 0 bs ≡ 3 → bytes_v3 (packet_v3 bs) ≡ bs
  unfolding bytes_v3
  bytes-packet_v3 h e =
      rw
        (
          be-field 4 2 bs b (omega arith),
          be-field 8 6 bs b (omega arith),
          be-field 8 14 bs b (omega arith),
          be-field 8 22 bs b (omega arith),
          field_join 12 30 42 bs refl,
          field_join 8 22 30 bs refl,
          field_join 8 14 22 bs refl,
          field_join 8 6 14 bs refl,
          field_join 4 2 6 bs refl,
          byte_join 1 bs (omega arith),
        )
        (head_join 3 bs (omega arith) e)

  to_bytes-packet_v1 : 37 ≤ length bs → byte_at 0 bs ≡ 1 → to_bytes (packet_v1 bs) ≡ bs
  unfolding to_bytes
  to_bytes-packet_v1 = bytes-packet_v1

  to_bytes-packet_v2 : 38 ≤ length bs → byte_at 0 bs ≡ 2 → to_bytes (packet_v2 bs) ≡ bs
  unfolding to_bytes
  to_bytes-packet_v2 = bytes-packet_v2

  to_bytes-packet_v3 : 58 ≤ length bs → byte_at 0 bs ≡ 3 → to_bytes (packet_v3 bs) ≡ bs
  unfolding to_bytes
  to_bytes-packet_v3 = bytes-packet_v3

  -- The format has no second spelling: bytes that `from_bytes` accepts are the bytes that `to_bytes`
  -- writes for the packet that it returned.
  pub to_bytes-from_bytes : {p : Packet} → from_bytes bs ≡ ok p → to_bytes p ≡ bs
  to_bytes-from_bytes {p} h =
      let h' : verdict bs ≡ ok p = rw (from_bytes-verdict bs) at h in
      ground (arith, to_bytes-packet_v1, to_bytes-packet_v2, to_bytes-packet_v3)

  IsPacket-packet_v1 : 37 ≤ length bs → IsPacket (packet_v1 bs)
  IsPacket-packet_v1 h = record {
    version = omega arith;
    flags = omega arith;
    node_id = omega arith;
    epoch = omega arith;
    sequence = field-lt 8 1 bs b (omega arith);
    timestamp_ms = omega arith;
    nonce = length-field 12 9 bs (omega arith);
    nonce_bytes = field-IsBytes 12 9 bs b;
    ciphertext = All-drop IsByte 21 bs b;
  }

  IsPacket-packet_v2 : 38 ≤ length bs → IsPacket (packet_v2 bs)
  IsPacket-packet_v2 h = record {
    version = omega arith;
    flags = byte_at-IsByte 1 bs b;
    node_id = omega arith;
    epoch = omega arith;
    sequence = field-lt 8 2 bs b (omega arith);
    timestamp_ms = omega arith;
    nonce = length-field 12 10 bs (omega arith);
    nonce_bytes = field-IsBytes 12 10 bs b;
    ciphertext = All-drop IsByte 22 bs b;
  }

  IsPacket-packet_v3 : 58 ≤ length bs → IsPacket (packet_v3 bs)
  IsPacket-packet_v3 h = record {
    version = omega arith;
    flags = byte_at-IsByte 1 bs b;
    node_id = field-lt 4 2 bs b (omega arith);
    epoch = field-lt 8 6 bs b (omega arith);
    sequence = field-lt 8 14 bs b (omega arith);
    timestamp_ms = field-lt 8 22 bs b (omega arith);
    nonce = length-field 12 30 bs (omega arith);
    nonce_bytes = field-IsBytes 12 30 bs b;
    ciphertext = All-drop IsByte 42 bs b;
  }

  -- What `from_bytes` accepts is in the ranges of the field types, of a known version, and its
  -- ciphertext has room for the tag.
  pub from_bytes-IsPacket :
      {p : Packet}
      → from_bytes bs ≡ ok p
      → IsPacket p × IsKnown p.version × (16 ≤ length p.ciphertext)
  from_bytes-IsPacket {p} h = elim (accepted bs (rw (from_bytes-verdict bs) at h)) [
    | inl (short, e) ↦
        subst Good (sym e) (IsPacket-packet_v1 short, omega arith, omega (arith, length-drop 21 bs))
    | inr (inl (short, e)) ↦
        subst Good (sym e) (IsPacket-packet_v2 short, omega arith, omega (arith, length-drop 22 bs))
    | inr (inr (short, e)) ↦
        subst Good (sym e) (IsPacket-packet_v3 short, omega arith, omega (arith, length-drop 42 bs))
  ]

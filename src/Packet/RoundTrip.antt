-- ===== src/Packet/RoundTrip.antt =====
-- `from_bytes` reads back what `to_bytes` wrote.
use cripto_endevs_comunity.Base.{
  ℕ, ◌+◌, ◌≤◌, ◌<◌, ◌≡◌, refl, List, [], ◌∷◌, ◌++◌, length, arith, false, if◌then◌else◌, ◌⊎◌, ltb,
  le→ltb, ◌==◌, All-append, Bool-cases, inl, inr,
}
use cripto_endevs_comunity.Error.{ok, err, version_no_soportada}
use cripto_endevs_comunity.Bytes.{be, index, IsByte, IsBytes}
use cripto_endevs_comunity.Bytes.BigEndian.{length-be, be-IsBytes}
use cripto_endevs_comunity.Bytes.Slices.{slice_at, slice_from_at, read_be_at, length-flat}
use cripto_endevs_comunity.Packet.{
  Packet, IsPacket, to_bytes, from_bytes, bytes_v1, bytes_v2, bytes_v3, parse_v1, parse_v2,
  parse_v3, parse_body,
}

-- What a packet becomes on the wire: the formats 1 and 2 carry no node, epoch and time, and the
-- format 1 carries no flags.
abbrev pub carried : Packet → Packet
carried p =
    if p.version == 3
    then p
    else if p.version == 2
    then record p { node_id = 0; epoch = 0; timestamp_ms = 0 }
    else record p { flags = 0; node_id = 0; epoch = 0; timestamp_ms = 0 }

abbrev pub IsKnown : ℕ → Type 0
IsKnown version = (1 ≤ version) × (version ≤ 3)

module _ (p : Packet) (valid : IsPacket p) (tagged : 16 ≤ length p.ciphertext) where
  parse-bytes_v1 :
      parse_v1 (bytes_v1 p) 1
      ≡ ok (record p { version = 1; flags = 0; node_id = 0; epoch = 0; timestamp_ms = 0 })
  unfolding parse_v1 bytes_v1
  parse-bytes_v1 =
      let front : List (List ℕ) = (1 ∷ []) ∷ [] in
      let head : List (List ℕ) = (1 ∷ []) ∷ be 8 p.sequence ∷ [] in
      let all : List (List ℕ) = (1 ∷ []) ∷ be 8 p.sequence ∷ p.nonce ∷ [] in
      let long : ltb (length (bytes_v1 p)) 37 ≡ false =
        le→ltb _ 37 (omega (arith, length-flat all p.ciphertext, length-be, valid.nonce)) in
      rw
        (
          long,
          read_be_at front 8 1 p.sequence (p.nonce ++ p.ciphertext) refl valid.sequence,
          slice_at head 9 21 p.nonce p.ciphertext (omega (arith, length-be))
              (omega (arith, valid.nonce)),
          slice_from_at all 21 p.ciphertext (omega (arith, length-be, valid.nonce)),
        )
        refl

  parse-bytes_v2 :
      (version : ℕ)
      → p.version ≡ version
      → parse_v2 (bytes_v2 p) version
        ≡ ok (record p { version = version; node_id = 0; epoch = 0; timestamp_ms = 0 })
  unfolding parse_v2 bytes_v2
  parse-bytes_v2 version e =
      let front = (p.version ∷ []) ∷ (p.flags ∷ []) ∷ [] in
      let head = (p.version ∷ []) ∷ (p.flags ∷ []) ∷ be 8 p.sequence ∷ [] in
      let all = (p.version ∷ []) ∷ (p.flags ∷ []) ∷ be 8 p.sequence ∷ p.nonce ∷ [] in
      let long : ltb (length (bytes_v2 p)) 38 ≡ false =
        le→ltb _ 38 (omega (arith, length-flat all p.ciphertext, length-be, valid.nonce)) in
      let second : index 1 (bytes_v2 p) ≡ ok p.flags = unfold index in refl in
      rw
        (
          long,
          second,
          read_be_at front 8 2 p.sequence (p.nonce ++ p.ciphertext) refl valid.sequence,
          slice_at head 10 22 p.nonce p.ciphertext (omega (arith, length-be))
              (omega (arith, valid.nonce)),
          slice_from_at all 22 p.ciphertext (omega (arith, length-be, valid.nonce)),
        )
        refl

  parse-bytes_v3 : parse_v3 (bytes_v3 p) 3 ≡ ok (record p { version = 3 })
  unfolding parse_v3 bytes_v3
  parse-bytes_v3 =
      let tail = p.nonce ++ p.ciphertext in
      let l1 : List (List ℕ) = (3 ∷ []) ∷ (p.flags ∷ []) ∷ [] in
      let l2 = (3 ∷ []) ∷ (p.flags ∷ []) ∷ be 4 p.node_id ∷ [] in
      let l3 = (3 ∷ []) ∷ (p.flags ∷ []) ∷ be 4 p.node_id ∷ be 8 p.epoch ∷ [] in
      let l4 = (3 ∷ []) ∷ (p.flags ∷ []) ∷ be 4 p.node_id ∷ be 8 p.epoch ∷ be 8 p.sequence ∷ [] in
      let l5 =
        (3 ∷ [])
        ∷ (p.flags ∷ [])
        ∷ be 4 p.node_id
        ∷ be 8 p.epoch
        ∷ be 8 p.sequence
        ∷ be 8 p.timestamp_ms
        ∷ [] in
      let l6 =
        (3 ∷ [])
        ∷ (p.flags ∷ [])
        ∷ be 4 p.node_id
        ∷ be 8 p.epoch
        ∷ be 8 p.sequence
        ∷ be 8 p.timestamp_ms
        ∷ p.nonce
        ∷ [] in
      let long : ltb (length (bytes_v3 p)) 58 ≡ false =
        le→ltb _ 58 (omega (arith, length-flat l6 p.ciphertext, length-be, valid.nonce)) in
      let second : index 1 (bytes_v3 p) ≡ ok p.flags = unfold index in refl in
      rw
        (
          long,
          second,
          read_be_at l1 4 2 p.node_id
              (be 8 p.epoch ++ (be 8 p.sequence ++ (be 8 p.timestamp_ms ++ tail))) refl
              valid.node_id,
          read_be_at l2 8 6 p.epoch (be 8 p.sequence ++ (be 8 p.timestamp_ms ++ tail))
              (omega (arith, length-be)) valid.epoch,
          read_be_at l3 8 14 p.sequence (be 8 p.timestamp_ms ++ tail) (omega (arith, length-be))
              valid.sequence,
          read_be_at l4 8 22 p.timestamp_ms tail (omega (arith, length-be)) valid.timestamp_ms,
          slice_at l5 30 42 p.nonce p.ciphertext (omega (arith, length-be))
              (omega (arith, valid.nonce)),
          slice_from_at l6 42 p.ciphertext (omega (arith, length-be, valid.nonce)),
        )
        refl

  -- Every layout is longer than the shortest packet.
  long_enough : ltb (length (to_bytes p)) 37 ≡ false
  unfolding to_bytes
  long_enough = ground (
    arith,
    length-flat ((1 ∷ []) ∷ be 8 p.sequence ∷ p.nonce ∷ []) p.ciphertext,
    length-flat ((p.version ∷ []) ∷ (p.flags ∷ []) ∷ be 8 p.sequence ∷ p.nonce ∷ []) p.ciphertext,
    length-flat
        ((3 ∷ [])
          ∷ (p.flags ∷ [])
          ∷ be 4 p.node_id
          ∷ be 8 p.epoch
          ∷ be 8 p.sequence
          ∷ be 8 p.timestamp_ms
          ∷ p.nonce
          ∷ [])
        p.ciphertext,
    length-be 8 p.sequence,
    length-be 4 p.node_id,
    length-be 8 p.epoch,
    length-be 8 p.timestamp_ms,
    valid.nonce,
  )

  -- The first byte is the version, and the arm of its format reads the rest.
  dispatch : from_bytes (to_bytes p) ≡ parse_body (to_bytes p) p.version
  unfolding from_bytes to_bytes index
  dispatch = rw long_enough (ground arith)

  -- Reading the bytes of a packet of a known version whose ciphertext has room for its tag gives
  -- back the fields that its version carries, and zeros for the others.
  pub from_bytes-to_bytes : IsKnown p.version → from_bytes (to_bytes p) ≡ ok (carried p)
  unfolding to_bytes parse_body
  from_bytes-to_bytes known =
      ground (arith, dispatch, parse-bytes_v1, parse-bytes_v2 2, parse-bytes_v3)

  -- A packet of another version is written in the layout of version 2, and is refused on reading
  -- with its version number.
  from_bytes-unknown :
      3 < p.version ⊎ p.version ≡ 0 → from_bytes (to_bytes p) ≡ err (version_no_soportada p.version)
  unfolding parse_body
  from_bytes-unknown other = ground (arith, dispatch)

-- What `to_bytes` writes are bytes.
pub to_bytes-IsBytes : (p : Packet) → IsPacket p → IsBytes (to_bytes p)
unfolding to_bytes bytes_v1 bytes_v2 bytes_v3
to_bytes-IsBytes p valid =
    let join = All-append IsByte in
    let ends : IsBytes (p.nonce ++ p.ciphertext) =
      join p.nonce p.ciphertext valid.nonce_bytes valid.ciphertext in
    let timed : IsBytes (be 8 p.timestamp_ms ++ (p.nonce ++ p.ciphertext)) =
      join (be 8 p.timestamp_ms) (p.nonce ++ p.ciphertext) (be-IsBytes 8 p.timestamp_ms) ends in
    elim (Bool-cases (p.version == 1)) [
      | inl v1 ↦ rw v1 (
        omega arith,
        join (be 8 p.sequence) (p.nonce ++ p.ciphertext) (be-IsBytes 8 p.sequence) ends,
      )
      | inr other ↦ elim (Bool-cases (p.version == 3)) [
        | inl v3 ↦
            rw (other, v3)
              (
                omega arith,
                (
                  valid.flags,
                  join (be 4 p.node_id) _ (be-IsBytes 4 p.node_id) (
                      join (be 8 p.epoch) _ (be-IsBytes 8 p.epoch)
                        (join (be 8 p.sequence) _ (be-IsBytes 8 p.sequence) timed)),
                ),
              )
        | inr v2 ↦
            rw (other, v2)
              (
                valid.version,
                (
                  valid.flags,
                  join (be 8 p.sequence) (p.nonce ++ p.ciphertext) (be-IsBytes 8 p.sequence) ends,
                ),
              )
      ]
    ]

pub length-to_bytes_v3 :
    (p : Packet)
    → p.version ≡ 3
    → length p.nonce ≡ 12
    → length (to_bytes p) ≡ 42 + length p.ciphertext
unfolding to_bytes bytes_v3
length-to_bytes_v3 p v3 size =
    let arm : to_bytes p ≡ bytes_v3 p = rw (v3, to_bytes) refl in
    rw arm (
      omega (
        arith,
        length-flat
            ((3 ∷ [])
              ∷ (p.flags ∷ [])
              ∷ be 4 p.node_id
              ∷ be 8 p.epoch
              ∷ be 8 p.sequence
              ∷ be 8 p.timestamp_ms
              ∷ p.nonce
              ∷ [])
            p.ciphertext,
        length-be 8 p.sequence,
        length-be 4 p.node_id,
        length-be 8 p.epoch,
        length-be 8 p.timestamp_ms,
        size,
      ))

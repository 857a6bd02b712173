-- ===== src/Packet.antt =====
-- src/packet.rs: the wire formats 1, 2 and 3 of a packet, and the data that AES-GCM authenticates
-- with it.
pub mod RoundTrip
pub mod Canonical
mod Tests
use cripto_endevs_comunity.Base.{
  ℕ, ◌+◌, ◌^◌, ◌<◌, ◌≡◌, Bool, List, [], ◌∷◌, ◌++◌, length, ltb, ◌==◌, not, if◌then◌else◌, codes,
  bit_and, ◌⊎◌, inl, inr,
}
use cripto_endevs_comunity.Error.{
  Error, Result, ok, err, ◌>>=◌, ◌>>◌, reject, paquete_corrupto, version_no_soportada,
  aad_demasiado_largo, base64,
}
use cripto_endevs_comunity.Bytes.{IsBytes, be, slice, slice_from, index, read_be, try_u32}
use cripto_endevs_comunity.Crypto.{Crypto}

abbrev pub wire_version_v3 : ℕ
wire_version_v3 = 3

abbrev pub wire_version_v2 : ℕ
wire_version_v2 = 2

abbrev pub wire_version_v1 : ℕ
wire_version_v1 = 1

abbrev pub flag_aad_present : ℕ
flag_aad_present = 1

abbrev pub nonce_len : ℕ
nonce_len = 12

abbrev pub tag_len : ℕ
tag_len = 16

abbrev pub v3_header_len : ℕ
v3_header_len = 42

abbrev pub v2_header_len : ℕ
v2_header_len = 22

abbrev pub v1_header_len : ℕ
v1_header_len = 21

pub record Packet : Type 0 where
  pub version : ℕ
  pub flags : ℕ
  pub node_id : ℕ
  pub epoch : ℕ
  pub sequence : ℕ
  pub timestamp_ms : ℕ
  pub nonce : List ℕ
  pub ciphertext : List ℕ

-- The ranges of the Rust types of the fields.
pub record IsPacket (p : Packet) : Type 0 where
  pub version : p.version < 256
  pub flags : p.flags < 256
  pub node_id : p.node_id < 2 ^ 32
  pub epoch : p.epoch < 2 ^ 64
  pub sequence : p.sequence < 2 ^ 64
  pub timestamp_ms : p.timestamp_ms < 2 ^ 64
  pub nonce : length p.nonce ≡ 12
  pub nonce_bytes : IsBytes p.nonce
  pub ciphertext : IsBytes p.ciphertext

-- `Packet::to_bytes`, one function for each arm of its `match`.
bytes_v1 : Packet → List ℕ
bytes_v1 p = (wire_version_v1 ∷ []) ++ (be 8 p.sequence ++ (p.nonce ++ p.ciphertext))

bytes_v3 : Packet → List ℕ
bytes_v3 p =
    (wire_version_v3 ∷ [])
    ++ ((p.flags ∷ [])
        ++ (be 4 p.node_id
            ++ (be 8 p.epoch
                ++ (be 8 p.sequence ++ (be 8 p.timestamp_ms ++ (p.nonce ++ p.ciphertext))))))

bytes_v2 : Packet → List ℕ
bytes_v2 p = (p.version ∷ []) ++ ((p.flags ∷ []) ++ (be 8 p.sequence ++ (p.nonce ++ p.ciphertext)))

unfoldable pub to_bytes : Packet → List ℕ
unfolding bytes_v1 bytes_v2 bytes_v3
to_bytes p =
    if p.version == wire_version_v1
    then bytes_v1 p
    else if p.version == wire_version_v3
    then bytes_v3 p
    else bytes_v2 p

-- `Packet::from_bytes`, one function for each arm of its `match`.
parse_v3 : List ℕ → ℕ → Result Packet
parse_v3 bytes version = do
  reject (ltb (length bytes) (v3_header_len + tag_len)) paquete_corrupto
  flags ← index 1 bytes
  node_id ← read_be 4 2 bytes
  epoch ← read_be 8 6 bytes
  sequence ← read_be 8 14 bytes
  timestamp_ms ← read_be 8 22 bytes
  nonce ← slice 30 v3_header_len bytes
  ciphertext ← slice_from v3_header_len bytes
  ok (record {
    version = version;
    flags = flags;
    node_id = node_id;
    epoch = epoch;
    sequence = sequence;
    timestamp_ms = timestamp_ms;
    nonce = nonce;
    ciphertext = ciphertext;
  })

parse_v2 : List ℕ → ℕ → Result Packet
parse_v2 bytes version = do
  reject (ltb (length bytes) (v2_header_len + tag_len)) paquete_corrupto
  flags ← index 1 bytes
  sequence ← read_be 8 2 bytes
  nonce ← slice 10 v2_header_len bytes
  ciphertext ← slice_from v2_header_len bytes
  ok (record {
    version = version;
    flags = flags;
    node_id = 0;
    epoch = 0;
    sequence = sequence;
    timestamp_ms = 0;
    nonce = nonce;
    ciphertext = ciphertext;
  })

parse_v1 : List ℕ → ℕ → Result Packet
parse_v1 bytes version = do
  reject (ltb (length bytes) (v1_header_len + tag_len)) paquete_corrupto
  sequence ← read_be 8 1 bytes
  nonce ← slice 9 v1_header_len bytes
  ciphertext ← slice_from v1_header_len bytes
  ok (record {
    version = version;
    flags = 0;
    node_id = 0;
    epoch = 0;
    sequence = sequence;
    timestamp_ms = 0;
    nonce = nonce;
    ciphertext = ciphertext;
  })

parse_body : List ℕ → ℕ → Result Packet
parse_body bytes version =
    if version == wire_version_v3
    then parse_v3 bytes version
    else if version == wire_version_v2
    then parse_v2 bytes version
    else if version == wire_version_v1
    then parse_v1 bytes version
    else err (version_no_soportada version)

pub from_bytes : List ℕ → Result Packet
unfolding parse_body
from_bytes bytes = do
  reject (ltb (length bytes) (v1_header_len + tag_len)) paquete_corrupto
  version ← index 0 bytes
  parse_body bytes version

unfoldable pub to_base64 : Crypto → Packet → List ℕ
to_base64 c p = c.base64_encode (to_bytes p)

-- `STANDARD.decode(s).map_err(|e| Error::Base64(e.to_string()))`
abbrev pub decoded : List ℕ ⊎ List ℕ → Result (List ℕ)
decoded (inl bytes) = ok bytes
decoded (inr message) = err (base64 message)

unfoldable pub from_base64 : Crypto → List ℕ → Result Packet
from_base64 c s = do bytes ← decoded (c.base64_decode s); from_bytes bytes

-- `build_internal_aad_v2_with_epoch`
unfoldable pub build_internal_aad_v2_with_epoch : ℕ → ℕ → List ℕ → ℕ → Result (List ℕ)
build_internal_aad_v2_with_epoch flags sequence user_aad epoch = do
  aad_len ← try_u32 (length user_aad) aad_demasiado_largo
  ok (
      (wire_version_v2 ∷ flags ∷ [])
      ++ (be 8 sequence
          ++ ((if epoch == 0 then [] else codes "epoch" ++ be 8 epoch)
              ++ (if bit_and flags flag_aad_present == 0 then [] else be 4 aad_len ++ user_aad))))

unfoldable pub build_internal_aad_v2 : ℕ → ℕ → List ℕ → Result (List ℕ)
unfolding build_internal_aad_v2_with_epoch
build_internal_aad_v2 flags sequence user_aad =
    build_internal_aad_v2_with_epoch flags sequence user_aad 0

unfoldable pub build_internal_aad_v3 :
    (flags node_id epoch sequence timestamp_ms : ℕ) (context_hash user_aad : List ℕ)
    → Result (List ℕ)
build_internal_aad_v3 flags node_id epoch sequence timestamp_ms context_hash user_aad = do
  aad_len ← try_u32 (length user_aad) aad_demasiado_largo
  ok (
      (wire_version_v3 ∷ flags ∷ [])
      ++ (be 4 node_id
          ++ (be 8 epoch
              ++ (be 8 sequence
                  ++ (be 8 timestamp_ms
                      ++ (context_hash
                          ++ (if bit_and flags flag_aad_present == 0
                              then []
                              else be 4 aad_len ++ user_aad)))))))

unfoldable pub build_internal_aad_v1 : ℕ → List ℕ
build_internal_aad_v1 sequence = (wire_version_v1 ∷ []) ++ be 8 sequence

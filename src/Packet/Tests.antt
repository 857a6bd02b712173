-- ===== src/Packet/Tests.antt =====
-- Runs of the packet format on concrete packets.
use cripto_endevs_comunity.Base.{ℕ, ◌≤◌, ◌≡◌, refl, List, ◌∷◌, ◌++◌, replicate, arith, length}
use cripto_endevs_comunity.Error.{ok}
use cripto_endevs_comunity.Bytes.{be, from_be, slice, slice_from, index, read_be}
use cripto_endevs_comunity.Packet.{Packet, IsPacket, to_bytes, from_bytes, parse_body, parse_v2}
use cripto_endevs_comunity.Packet.RoundTrip.{IsKnown, from_bytes-to_bytes}
use cripto_endevs_comunity.Packet.Canonical.{to_bytes-from_bytes, from_bytes-IsPacket}

-- A packet of a version, with a nonce of sevens and a ciphertext that is only a tag of nines.
abbrev sample : ℕ → Packet
sample version = record {
  version = version;
  flags = 1;
  node_id = 0;
  epoch = 0;
  sequence = 5;
  timestamp_ms = 0;
  nonce = replicate 12 7;
  ciphertext = replicate 16 9;
}

sample_3-IsPacket : IsPacket (sample 3)
sample_3-IsPacket = record {
  version = omega arith;
  flags = omega arith;
  node_id = omega arith;
  epoch = omega arith;
  sequence = omega arith;
  timestamp_ms = omega arith;
  nonce = refl;
  nonce_bytes = ground arith;
  ciphertext = ground arith;
}

-- The bytes of a packet of version 2.
abbrev wire : List ℕ
wire = 2 ∷ 1 ∷ (be 8 5 ++ (replicate 12 7 ++ replicate 16 9))

from_bytes-to_bytes_example : from_bytes (to_bytes (sample 3)) ≡ ok (sample 3)
from_bytes-to_bytes_example =
    from_bytes-to_bytes (sample 3) sample_3-IsPacket (omega arith) (omega arith, omega arith)

from_bytes-wire : from_bytes wire ≡ ok (sample 2)
unfolding from_bytes parse_body parse_v2 be from_be slice slice_from index read_be
from_bytes-wire = refl

to_bytes-from_bytes_example : to_bytes (sample 2) ≡ wire
unfolding be
to_bytes-from_bytes_example = to_bytes-from_bytes wire (ground arith) from_bytes-wire

from_bytes-IsPacket_example : IsPacket (sample 2) × IsKnown 2 × (16 ≤ length (sample 2).ciphertext)
unfolding be
from_bytes-IsPacket_example = from_bytes-IsPacket wire (ground arith) from_bytes-wire

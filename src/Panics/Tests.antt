-- ===== src/Panics/Tests.antt =====
-- The decoders on bytes that begin like a container, and opening on a packet that is far behind.
use cripto_endevs_comunity.Base.{ℕ, ◌≢◌, ◌≤◌, ◌++◌, List, [], ◌∷◌, some, replicate, arith, codes}
use cripto_endevs_comunity.Error.{panic}
use cripto_endevs_comunity.Crypto.Toy.{toy, toy-IsLawful}
use cripto_endevs_comunity.Packet.{Packet, from_bytes, from_base64}
use cripto_endevs_comunity.Chrono.{seal_realtime, open_realtime, open_persisted_record}
use cripto_endevs_comunity.Chrono
use cripto_endevs_comunity.Chrono.Checkpoint.{decode_checkpoint}
use cripto_endevs_comunity.Wal.{encode_append_frame, recover_from_bytes}
use cripto_endevs_comunity.Wal
use cripto_endevs_comunity.DualSlot.{commit_state, open_slot}
use cripto_endevs_comunity.DualSlot
use cripto_endevs_comunity.Replay.{ReplayWindowChannel, open_packet}
use cripto_endevs_comunity.Seed.{from_transfer_token}
use cripto_endevs_comunity.Ordered.Snapshot.{import_state}
use cripto_endevs_comunity.Ordered.Links.{extraer_semilla_de_enlace}
use cripto_endevs_comunity.Ffi.{CnMeshHandle}
use cripto_endevs_comunity.Panics.Input.{decoders-ne-panic}
use cripto_endevs_comunity.Panics.Opening.{opens-ne-panic}

abbrev handle : CnMeshHandle
handle = record {
  node = Chrono.new toy (1 ∷ replicate 31 5) (1 ∷ []) 7 3 1000;
  wrap_key = replicate 32 8;
  dual_slot = DualSlot.new;
  wal = Wal.new;
}

handle_window : handle.node.replay_window ≤ 128
unfolding Chrono.new
handle_window = omega arith

-- A container whose slot A claims more bytes than follow.
abbrev cut_short : List ℕ
cut_short = codes "CNDS" ++ (replicate 8 0 ++ (0 ∷ 0 ∷ 0 ∷ 200 ∷ replicate 20 7))

abbrev packet : Packet
packet = record {
  version = 3;
  flags = 0;
  node_id = 8;
  epoch = 3;
  sequence = 0;
  timestamp_ms = 10000;
  nonce = replicate 12 1;
  ciphertext = replicate 20 2;
}

decoders-ne-panic_example :
    (from_bytes cut_short ≢ panic)
    × (from_base64 toy cut_short ≢ panic)
    × (recover_from_bytes toy cut_short ≢ panic)
    × (DualSlot.from_bytes cut_short ≢ panic)
    × (open_slot toy cut_short (replicate 32 8) ≢ panic)
    × (decode_checkpoint toy handle.node cut_short (replicate 32 8) ≢ panic)
    × (import_state toy cut_short (replicate 32 8) [] ≢ panic)
    × (from_transfer_token toy cut_short ≢ panic)
    × (extraer_semilla_de_enlace toy cut_short ≢ panic)
decoders-ne-panic_example =
    decoders-ne-panic toy handle.node cut_short (replicate 32 8) [] toy-IsLawful (ground arith)

-- A channel, and a packet that is far behind its highest number.
abbrev channel : ReplayWindowChannel
channel = record {
  tx_key = replicate 32 1;
  rx_key = replicate 32 2;
  tx_nonce_mask = replicate 12 3;
  rx_nonce_mask = replicate 12 4;
  tx_seq = 0;
  highest_seen = some 1000;
  seen_bitmap = 1;
  window = 64;
}

abbrev old_packet : Packet
old_packet = record packet { version = 2; sequence = 800 }

opens-ne-panic_example :
    ((open_realtime toy handle.node old_packet (2 ∷ []) 10000).0 ≢ panic)
    × ((open_packet toy channel old_packet (2 ∷ [])).0 ≢ panic)
opens-ne-panic_example =
    opens-ne-panic toy handle.node channel old_packet (2 ∷ []) 10000 handle_window (omega arith)

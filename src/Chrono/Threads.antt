-- ===== src/Chrono/Threads.antt =====
-- Several threads that seal and open on one node. Between the atomic draw of a sequence number and the
-- sections under the lock other threads take their steps: a packet is verified without the lock and
-- committed later, or never.
pub mod Opened
pub mod Drawn
pub mod Bag
use cripto_endevs_comunity.Base.{
  ℕ, ◌%◌, ◌^◌, ◌≤◌, ◌<◌, ◌≡◌, refl, sym, ap, ◌∙◌, false, ◌&&◌, List, [], ◌∷◌, ◌++◌, length, arith,
  All, All-mono, ◌==◌, inl, inr, Bool-cases, if◌then◌else◌,
}
use cripto_endevs_comunity.Error.{Error, ok, err}
use cripto_endevs_comunity.Crypto.{Crypto}
use cripto_endevs_comunity.Packet.{Packet}
use cripto_endevs_comunity.Window.{PeerReplayState, check, record_seq}
use cripto_endevs_comunity.Window.Meaning.{elem, Tracks, check-expected, record_seq-Tracks}
use cripto_endevs_comunity.Window.History.{Distinct, is_ok, is_new}
use cripto_endevs_comunity.Chrono.{
  ChronoMeshNode, draw_sequence, note_packet, open_verify, open_commit, or_default,
}
use cripto_endevs_comunity.Chrono.Peers.{get, get-insert}

-- A node with the numbers that its sealing threads drew, the packets that opening threads hold
-- verified, those that were opened, and those sealed here that
-- were added to the integrity hash.
pub record Running : Type 0 where
  pub node : ChronoMeshNode
  pub drawn : List ℕ
  pub verified : List Packet
  pub opened : List Packet
  pub noted : List Packet

abbrev pub fresh : ChronoMeshNode → Running
fresh n = record { node = n; drawn = []; verified = []; opened = []; noted = [] }

pub data Step (c : Crypto) (r u : Running) : Type 0 where
  draw : u ≡ record r { node = draw_sequence r.node; drawn = r.node.tx_seq ∷ r.drawn } → Step c r u
  note :
      (p : Packet)
      → u ≡ record r { node = note_packet c r.node p; noted = p ∷ r.noted }
      → Step c r u
  verify :
      (p : Packet) (aad plaintext : List ℕ) (now_ms : ℕ)
      → open_verify c r.node p aad now_ms ≡ ok plaintext
      → u ≡ record r { verified = p ∷ r.verified }
      → Step c r u
  commit :
      (p : Packet) (before after : List Packet)
      → r.verified ≡ before ++ (p ∷ after)
      → (open_commit c r.node p).0 ≡ ok tt
      → u ≡ record r {
        node = (open_commit c r.node p).1;
        verified = before ++ after;
        opened = p ∷ r.opened;
      }
      → Step c r u
  refuse :
      (p : Packet) (before after : List Packet) (e : Error)
      → r.verified ≡ before ++ (p ∷ after)
      → (open_commit c r.node p).0 ≡ err e
      → u ≡ record r { node = (open_commit c r.node p).1; verified = before ++ after }
      → Step c r u

pub data Reach (c : Crypto) (r : Running) : Running → Type 0 where
  here : Reach c r r
  next : {t u : Running} → Reach c r t → Step c t u → Reach c r u

-- The sequence numbers of the packets of one node and epoch.
unfoldable pub numbers : ℕ → ℕ → List Packet → List ℕ
numbers node epoch [] = []
numbers node epoch (p ∷ ps) =
    if (p.node_id == node) && (p.epoch == epoch)
    then p.sequence ∷ numbers node epoch ps
    else numbers node epoch ps

abbrev pub window_of : ChronoMeshNode → ℕ → ℕ → PeerReplayState
window_of n node epoch = or_default (get node epoch n.peers)

-- ===== src/Replay/Delivery.antt =====
-- A channel that is handed any packets, in any order and however often.
use cripto_endevs_comunity.Base.{
  ℕ, ◌≤◌, ◌≡◌, sym, ap, ◌∙◌, true, false, none, List, [], ◌∷◌, arith, inl, inr, if◌then◌else◌,
  subst, ◌⊎◌,
}
use cripto_endevs_comunity.Error.{Error, ok, err, panic, Result-cases}
use cripto_endevs_comunity.Crypto.{Crypto}
use cripto_endevs_comunity.Packet.{Packet}
use cripto_endevs_comunity.Window.{PeerReplayState, check, record_seq, advance}
use cripto_endevs_comunity.Window.Meaning.{
  elem, Tracks, check-expected, record_seq-Tracks, Tracks-same,
}
use cripto_endevs_comunity.Window.History.{Distinct, is_new, is_ok}
use cripto_endevs_comunity.Replay.{
  ReplayWindowChannel, open_packet, open_plaintext, ensure_sequence_is_new, mark_seen,
}

-- The window of the channel as that of a peer of the mesh, which is the same code.
abbrev pub as_peer : ReplayWindowChannel → PeerReplayState
as_peer ch = record {
  highest_seen = ch.highest_seen;
  seen_bitmap = ch.seen_bitmap;
  received_count = 0;
}

pub ensure-check :
    (ch : ReplayWindowChannel) (seq : ℕ)
    → ensure_sequence_is_new ch seq ≡ check (as_peer ch) seq ch.window
unfolding ensure_sequence_is_new check
ensure-check ch seq = ground arith

module _ (ch : ReplayWindowChannel) (seq : ℕ) where
  highest-mark_seen :
      (mark_seen ch seq).highest_seen ≡ (record_seq (as_peer ch) seq ch.window).highest_seen
  unfolding mark_seen record_seq
  highest-mark_seen = ground arith

  bitmap-mark_seen :
      ch.window ≤ 128
      → (mark_seen ch seq).seen_bitmap ≡ (record_seq (as_peer ch) seq ch.window).seen_bitmap
  unfolding mark_seen record_seq advance
  bitmap-mark_seen w = ground arith

  window-mark_seen : (mark_seen ch seq).window ≡ ch.window
  unfolding mark_seen
  window-mark_seen = ground arith

pub record Inbox : Type 0 where
  pub channel : ReplayWindowChannel
  pub opened : List ℕ

-- One packet: if it opens, its sequence number is noted.
pub deliver : Crypto → Inbox → Packet × List ℕ → Inbox
deliver c t (p, aad) =
    let (result, channel) = open_packet c t.channel p aad in
    record { channel = channel; opened = if is_ok result then p.sequence ∷ t.opened else t.opened }

pub deliver_all : Crypto → Inbox → List (Packet × List ℕ) → Inbox
deliver_all c t [] = t
deliver_all c t (p ∷ ps) = deliver_all c (deliver c t p) ps

record IsSound (t : Inbox) : Type 0 where
  bounded : t.channel.window ≤ 128
  tracks : Tracks (as_peer t.channel) t.channel.window t.opened
  distinct : Distinct t.opened

opened_is_new :
    (c : Crypto) (ch : ReplayWindowChannel) (p : Packet) (aad : List ℕ) {plaintext : List ℕ}
    → open_plaintext c ch p aad ≡ ok plaintext
    → is_ok (ensure_sequence_is_new ch p.sequence) ≡ true
unfolding open_plaintext
opened_is_new c ch p aad e = ground arith

module _ (c : Crypto) (t : Inbox) (p : Packet) (aad : List ℕ) where
  deliver_opened :
      {plaintext : List ℕ}
      → open_plaintext c t.channel p aad ≡ ok plaintext
      → deliver c t (p, aad)
        ≡ record { channel = mark_seen t.channel p.sequence; opened = p.sequence ∷ t.opened }
  unfolding deliver open_packet
  deliver_opened e = ground arith

  deliver_refused :
      ((x : Error) × (open_plaintext c t.channel p aad ≡ err x))
        ⊎ (open_plaintext c t.channel p aad ≡ panic)
      → deliver c t (p, aad) ≡ t
  unfolding deliver open_packet
  deliver_refused e = ground arith

  mark_seen-Tracks :
      IsSound t
      → Tracks
          (as_peer (mark_seen t.channel p.sequence))
          (mark_seen t.channel p.sequence).window
          (p.sequence ∷ t.opened)
  mark_seen-Tracks s =
      let ch : ReplayWindowChannel = t.channel in
      rw (window-mark_seen ch p.sequence) (
        Tracks-same (sym (highest-mark_seen ch p.sequence))
          (sym (bitmap-mark_seen ch p.sequence s.bounded))
          (record_seq-Tracks (as_peer ch) p.sequence ch.window t.opened s.tracks s.bounded))

  sequence_is_new :
      IsSound t
      → is_ok (ensure_sequence_is_new t.channel p.sequence) ≡ true
      → elem p.sequence t.opened ≡ false
  sequence_is_new s good = is_new p.sequence t.channel.window t.opened (
      ap is_ok (
        sym (
          check-expected (as_peer t.channel) p.sequence t.channel.window t.opened s.tracks
            s.bounded)
        ∙ sym (ensure-check t.channel p.sequence))
      ∙ good)

  deliver-IsSound : IsSound t → IsSound (deliver c t (p, aad))
  deliver-IsSound s = elim (Result-cases (open_plaintext c t.channel p aad)) [
    | inl (plaintext, e) ↦ subst IsSound (sym (deliver_opened e)) (record {
      bounded = rw (window-mark_seen t.channel p.sequence) s.bounded;
      tracks = mark_seen-Tracks s;
      distinct = (sequence_is_new s (opened_is_new c t.channel p aad e), s.distinct);
    })
    | inr e ↦ subst IsSound (sym (deliver_refused e)) s
  ]

deliver_all-IsSound :
    (c : Crypto) (t : Inbox) (ps : List (Packet × List ℕ))
    → IsSound t
    → IsSound (deliver_all c t ps)
unfolding deliver_all
deliver_all-IsSound c t [] s = s
deliver_all-IsSound c t ((p, aad) ∷ ps) s =
    deliver_all-IsSound c (deliver c t (p, aad)) ps (deliver-IsSound c t p aad s)

-- A channel whose window is at most 128 and that has received nothing yet opens at most one packet
-- with each sequence number, whatever packets it is handed, in any order and however often.
pub deliver_all-Distinct :
    (c : Crypto) (ch : ReplayWindowChannel) (ps : List (Packet × List ℕ))
    → ch.window ≤ 128
    → ch.highest_seen ≡ none
    → Distinct (deliver_all c (record { channel = ch; opened = [] }) ps).opened
deliver_all-Distinct c ch ps w e =
    (deliver_all-IsSound c (record { channel = ch; opened = [] }) ps
      (record {
        bounded = w;
        tracks = record { highest = e; places = λ h d e' r k. cc };
        distinct = tt;
      })).distinct

-- ===== src/Ordered/Talk.antt =====
-- A conversation over the ordered channel: both ends send, in any order.
use cripto_endevs_comunity.Base.{
  ℕ, Bool-cases, ◌≡◌, refl, Bool, true, false, List, [], ◌∷◌, All, inl, inr,
}
use cripto_endevs_comunity.Error.{Result, ok, err, panic}
use cripto_endevs_comunity.Crypto.{Crypto, IsLawful}
use cripto_endevs_comunity.Role.{Role, peer}
use cripto_endevs_comunity.Packet.{Packet}
use cripto_endevs_comunity.Ordered.{
  CryptoNugget, new_with_context, cifrar_bytes_with_aad, descifrar_bytes_with_aad,
  transcript_hashes,
}
use cripto_endevs_comunity.Ordered.Sync.{InSync, new-InSync, descifrar-cifrar, cifrar-cases}

-- Which end sends, and what: the plaintext, the associated data and the nonce that is drawn.
pub record Message : Type 0 where
  pub by_first : Bool
  pub plaintext : List ℕ
  pub aad : List ℕ
  pub nonce : List ℕ

-- The two ends, and of each packet that was sealed what was sent and what the other end got.
pub record Talk : Type 0 where
  pub first : CryptoNugget
  pub second : CryptoNugget
  pub got : List (List ℕ × Result (List ℕ))

-- The receiving end, behind a sealing that gave a packet or failed.
pub receive :
    Crypto
    → CryptoNugget
    → Message
    → Result Packet
    → List (List ℕ × Result (List ℕ))
    → CryptoNugget × List (List ℕ × Result (List ℕ))
receive c to m (ok p) got =
    let (result, to') = descifrar_bytes_with_aad c to p m.aad in (to', (m.plaintext, result) ∷ got)
receive c to m (err e) got = (to, got)
receive c to m panic got = (to, got)

pub send : Crypto → Talk → Message → Talk
send c t m = elim m.by_first [
  | true ↦
      let (packet, first) = cifrar_bytes_with_aad c t.first m.plaintext m.aad m.nonce in
      let (second, got) = receive c t.second m packet t.got in
      record { first = first; second = second; got = got }
  | false ↦
      let (packet, second) = cifrar_bytes_with_aad c t.second m.plaintext m.aad m.nonce in
      let (first, got) = receive c t.first m packet t.got in
      record { first = first; second = second; got = got }
]

pub send_all : Crypto → Talk → List Message → Talk
send_all c t [] = t
send_all c t (m ∷ ms) = send_all c (send c t m) ms

abbrev pub IsFaithful : List ℕ × Result (List ℕ) → Type 0
IsFaithful (plaintext, result) = result ≡ ok plaintext

record IsSound (t : Talk) : Type 0 where
  forth : InSync t.first t.second
  back : InSync t.second t.first
  faithful : All IsFaithful t.got

module _ (c : Crypto) (lawful : IsLawful c) where
  -- One direction, of a sealing that gave `packet` and left the sender as `a'`.
  receive-InSync :
      (a b : CryptoNugget) (m : Message) (got : List (List ℕ × Result (List ℕ)))
      → InSync a b
      → InSync b a
      → All IsFaithful got
      → let sent = cifrar_bytes_with_aad c a m.plaintext m.aad m.nonce in
        let received = receive c b m sent.0 got in
        InSync sent.1 received.0 × InSync received.0 sent.1 × All IsFaithful received.1
  unfolding receive
  receive-InSync a b m got forth back faithful = elim (cifrar-cases c a m.plaintext m.aad m.nonce) [
    | inl (p, a', e) ↦
        let (b', opens, forth', back') =
          descifrar-cifrar c a a' b m.plaintext m.aad m.nonce p lawful forth back e in
        rw (e, opens) (forth', back', (refl, faithful))
    | inr (inl (x, e)) ↦ rw e (forth, back, faithful)
    | inr (inr e) ↦ rw e (forth, back, faithful)
  ]

  send-IsSound : (t : Talk) (m : Message) → IsSound t → IsSound (send c t m)
  unfolding send receive
  send-IsSound t m s = elim (Bool-cases m.by_first) [
    | inl first ↦
        let (forth, back, faithful) =
          receive-InSync t.first t.second m t.got s.forth s.back s.faithful in
        rw first (record { forth = forth; back = back; faithful = faithful })
    | inr second ↦
        let (back, forth, faithful) =
          receive-InSync t.second t.first m t.got s.back s.forth s.faithful in
        rw second (record { forth = forth; back = back; faithful = faithful })
  ]

  send_all-IsSound : (t : Talk) (ms : List Message) → IsSound t → IsSound (send_all c t ms)
  unfolding send_all
  send_all-IsSound t [] s = s
  send_all-IsSound t (m ∷ ms) s = send_all-IsSound (send c t m) ms (send-IsSound t m s)

-- The two ends before their first message.
abbrev pub meet : Crypto → (seed context : List ℕ) → Role → Talk
meet c seed context role = record {
  first = new_with_context c seed role context;
  second = new_with_context c seed (peer role) context;
  got = [];
}

-- The channels of the two roles over one seed and context, after any conversation in which each
-- packet arrives before the next is sealed: every packet was opened to the plaintext that was
-- sealed, and of both directions the two ends hold the same transcript.
pub send_all-IsFaithful :
    (c : Crypto) (seed context : List ℕ) (role : Role) (ms : List Message)
    → IsLawful c
    → let t = send_all c (meet c seed context role) ms in
      All IsFaithful t.got
      × ((transcript_hashes t.first).0 ≡ (transcript_hashes t.second).1)
      × ((transcript_hashes t.second).0 ≡ (transcript_hashes t.first).1)
unfolding transcript_hashes
send_all-IsFaithful c seed context role ms lawful =
    let (forth, back) = new-InSync c seed context role in
    let s =
      send_all-IsSound c lawful (meet c seed context role) ms
        (record { forth = forth; back = back; faithful = tt }) in
    (s.faithful, s.forth.transcript, s.back.transcript)

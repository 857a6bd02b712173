-- ===== src/Ordered/Snapshot/Resume.antt =====
-- The ordered channel goes on from a snapshot, and what its peer then opens.
mod Tests
use cripto_endevs_comunity.Base.{
  ℕ, ◌+◌, ◌^◌, ◌<◌, ◌≡◌, sym, ap, ◌∙◌, Bool, true, false, List, length, arith,
}
use cripto_endevs_comunity.Error.{ok, err, autenticacion}
use cripto_endevs_comunity.Crypto.{Crypto, IsLawful}
use cripto_endevs_comunity.Packet.{Packet}
use cripto_endevs_comunity.Ordered.{CryptoNugget, cifrar_bytes_with_aad, descifrar_bytes_with_aad}
use cripto_endevs_comunity.Ordered.Sync.{InSync}
use cripto_endevs_comunity.Ordered.Snapshot.{export_state, import_state, mark_resumed}
use cripto_endevs_comunity.Ordered.Snapshot.RoundTrip.{
  IsNugget, export_state-parts, import_state-export_state,
}
use cripto_endevs_comunity.Ordered.Snapshot.Epochs.{
  Agree, at_epoch, OnlyUnder, descifrar-ahead, descifrar-apart,
}

-- Two ends in step, of which one moved its epoch.
behind-Agree : (a b : CryptoNugget) (epoch : ℕ) → InSync a b → Agree (at_epoch a epoch) b
behind-Agree a b epoch pair = record {
  key = pair.key;
  seq = pair.seq;
  transcript = pair.transcript;
  resumed = pair.resumed;
}

ahead-Agree : (a b : CryptoNugget) (epoch : ℕ) → InSync b a → Agree b (at_epoch a epoch)
ahead-Agree a b epoch pair = record {
  key = pair.key;
  seq = pair.seq;
  transcript = pair.transcript;
  resumed = pair.resumed;
}

export_state-epoch :
    (c : Crypto) (n n' : CryptoNugget) (wrap nonce bytes : List ℕ)
    → export_state c n wrap nonce ≡ (ok bytes, n')
    → (n' ≡ at_epoch n (n.epoch + 1)) × (n.epoch + 1 < 2 ^ 64)
export_state-epoch c n n' wrap nonce bytes h =
    let (same, fits, sealed) = export_state-parts c n n' wrap nonce bytes h in (same, fits)

-- Of two ends in step, one exports a snapshot, and goes on from it: it imports the snapshot and
-- confirms it. What it then seals, if it authenticates under no other epoch near, the other end
-- opens: it gets the plaintext, and the two are in step again, both ways.
pub descifrar-mark_resumed :
    (c : Crypto) (a left r a' b : CryptoNugget) (wrap drawn bytes plaintext aad nonce : List ℕ)
    (p : Packet)
    → IsLawful c
    → IsNugget a
    → length drawn ≡ 12
    → InSync a b
    → InSync b a
    → export_state c a wrap drawn ≡ (ok bytes, left)
    → import_state c bytes wrap a.context ≡ ok r
    → cifrar_bytes_with_aad c (mark_resumed r) plaintext aad nonce ≡ (ok p, a')
    → OnlyUnder c b.rx_key p aad (a.epoch + 1)
    → (b' : CryptoNugget) × (descifrar_bytes_with_aad c b p aad ≡ (ok plaintext, b'))
      × InSync a' b'
      × InSync b' a'
unfolding mark_resumed
descifrar-mark_resumed c a left r a' b wrap drawn bytes plaintext aad nonce p lawful valid size
      forth back saved loaded seals only =
    let (same, fits) = export_state-epoch c a left wrap drawn bytes saved in
    let (_, reads) = import_state-export_state c a left wrap drawn bytes lawful valid size saved in
    let on : CryptoNugget = at_epoch a (a.epoch + 1) in
    let imported : r ≡ record left { requires_resume_ack = true } = ground arith in
    let confirmed : mark_resumed r ≡ record left { requires_resume_ack = false } =
      ap (λ (n : CryptoNugget). record n { requires_resume_ack = false }) imported in
    let moved : record left { requires_resume_ack = false }
        ≡ record on { requires_resume_ack = false } =
      ap (λ (n : CryptoNugget). record n { requires_resume_ack = false }) same in
    let open_again : record on { requires_resume_ack = false } ≡ on =
      ap (λ (ack : Bool). record on { requires_resume_ack = ack }) (sym back.resumed) in
    let is : mark_resumed r ≡ on = confirmed ∙ moved ∙ open_again in
    descifrar-ahead c on a' b plaintext aad nonce p lawful (behind-Agree a b (a.epoch + 1) forth)
      (rw is at seals) (ahead-Agree a b (a.epoch + 1) back) only
      (ap (λ (n : ℕ). n + 1) (sym forth.epoch)) fits

-- Of two ends in step, one exports a snapshot: a packet that the other end then seals, if it
-- authenticates under no other epoch near, is refused, and the channel stays as it is.
pub descifrar-export_state :
    (c : Crypto) (a left b b' : CryptoNugget) (wrap drawn bytes plaintext aad nonce : List ℕ)
    (p : Packet)
    → IsLawful c
    → InSync b a
    → a.epoch + 2 < 2 ^ 64
    → export_state c a wrap drawn ≡ (ok bytes, left)
    → cifrar_bytes_with_aad c b plaintext aad nonce ≡ (ok p, b')
    → OnlyUnder c a.rx_key p aad b.epoch
    → descifrar_bytes_with_aad c left p aad ≡ (err autenticacion, left)
descifrar-export_state c a left b b' wrap drawn bytes plaintext aad nonce p lawful pair room saved
      seals only =
    let (same, fits) = export_state-epoch c a left wrap drawn bytes saved in
    let e : b.epoch ≡ a.epoch = pair.epoch in
    rw same (
      descifrar-apart c b b' (at_epoch a (a.epoch + 1)) plaintext aad nonce p lawful
        (ahead-Agree a b (a.epoch + 1) pair) seals only (omega arith) (omega arith) (omega arith)
        (omega arith))

-- Of two ends in step, one exports two snapshots in a row: what it then seals, if it authenticates
-- under no other epoch near, the other end refuses, and stays as it is.
pub descifrar-export_state_twice :
    (c : Crypto) (a once twice a' b : CryptoNugget)
    (wrap drawn drawn' bytes bytes' plaintext aad nonce : List ℕ) (p : Packet)
    → IsLawful c
    → InSync a b
    → export_state c a wrap drawn ≡ (ok bytes, once)
    → export_state c once wrap drawn' ≡ (ok bytes', twice)
    → cifrar_bytes_with_aad c twice plaintext aad nonce ≡ (ok p, a')
    → OnlyUnder c b.rx_key p aad (a.epoch + 2)
    → descifrar_bytes_with_aad c b p aad ≡ (err autenticacion, b)
descifrar-export_state_twice c a once twice a' b wrap drawn drawn' bytes bytes' plaintext aad nonce
      p lawful pair first second seals only =
    let (same, fits) = export_state-epoch c a once wrap drawn bytes first in
    let (same', fits') = export_state-epoch c once twice wrap drawn' bytes' second in
    let e : b.epoch ≡ a.epoch = sym pair.epoch in
    let moves : once.epoch ≡ a.epoch + 1 = ap (λ (n : CryptoNugget). n.epoch) same in
    let epoch : once.epoch + 1 ≡ a.epoch + 2 = omega arith in
    let is : twice ≡ at_epoch a (a.epoch + 2) =
      same' ∙ ap (λ (n : CryptoNugget). at_epoch n (once.epoch + 1)) same ∙ ap (at_epoch a) epoch in
    descifrar-apart c (at_epoch a (a.epoch + 2)) a' b plaintext aad nonce p lawful
      (behind-Agree a b (a.epoch + 2) pair) (rw is at seals) only (omega arith) (omega arith)
      (omega arith) (omega arith)

-- ===== src/Replay/Nonces.antt =====
-- No two packets of a channel share a nonce: the mask is fixed, and the counter is xored into it.
use cripto_endevs_comunity.Base.{
  ℕ, ◌+◌, ◌≤◌, ◌<◌, ◌^◌, ◌≡◌, ◌≢◌, refl, sym, ap, ap₂, ◌∙◌, subst, List, [], ◌∷◌, ◌++◌, length,
  arith, All, take, drop, bit_xor, length-drop, inl, inr, ◌⊎◌, All-mono,
}
use cripto_endevs_comunity.Base.Bits.{bit_xor_cancel}
use cripto_endevs_comunity.Error.{Error, Result, ok, err, panic, Result-cases}
use cripto_endevs_comunity.Bytes.{be, from_be, xor_bytes}
use cripto_endevs_comunity.Bytes.BigEndian.{length-be, from_be-be}
use cripto_endevs_comunity.Crypto.{Crypto}
use cripto_endevs_comunity.Packet.{Packet}
use cripto_endevs_comunity.Replay.{ReplayWindowChannel, seal, seal_packet, compute_nonce}
use cripto_endevs_comunity.Replay.Channel.{seal_packet-SealedAs}

append_cancel : (xs ys zs : List ℕ) → xs ++ ys ≡ xs ++ zs → ys ≡ zs
append_cancel [] ys zs h = h
append_cancel (x ∷ xs) ys zs h = append_cancel xs ys zs (ap (drop 1) h)

head_or : List ℕ → ℕ
head_or [] = 0
head_or (x ∷ xs) = x

xor_bytes_cancel :
    (xs ys zs : List ℕ)
    → length ys ≡ length xs
    → length zs ≡ length xs
    → xor_bytes xs ys ≡ xor_bytes xs zs
    → ys ≡ zs
unfolding xor_bytes head_or
xor_bytes_cancel [] [] [] p q h = refl
xor_bytes_cancel [] (y ∷ ys) zs p q h = absurd (omega arith)
xor_bytes_cancel [] [] (z ∷ zs) p q h = absurd (omega arith)
xor_bytes_cancel (x ∷ xs) [] zs p q h = absurd (omega arith)
xor_bytes_cancel (x ∷ xs) (y ∷ ys) [] p q h = absurd (omega arith)
xor_bytes_cancel (x ∷ xs) (y ∷ ys) (z ∷ zs) p q h =
    ap₂ ◌∷◌
      (sym (bit_xor_cancel x y) ∙ ap (λ (l : List ℕ). bit_xor x (head_or l)) h ∙ bit_xor_cancel x z)
      (xor_bytes_cancel xs ys zs (omega arith) (omega arith) (ap (drop 1) h))

-- Under a mask of 12 bytes two sequence numbers of 64 bits never give one nonce.
pub compute_nonce-injective :
    (mask : List ℕ) (s t : ℕ)
    → length mask ≡ 12
    → s < 2 ^ 64
    → t < 2 ^ 64
    → compute_nonce mask s ≡ compute_nonce mask t
    → s ≡ t
unfolding compute_nonce
compute_nonce-injective mask s t size hs ht h =
    let bytes : be 8 s ≡ be 8 t =
      xor_bytes_cancel (drop 4 mask) (be 8 s) (be 8 t)
        (omega (arith, length-be, length-drop 4 mask))
        (omega (arith, length-be, length-drop 4 mask)) (append_cancel (take 4 mask) _ _ h) in
    sym (from_be-be 8 s hs) ∙ ap from_be bytes ∙ from_be-be 8 t ht

-- The packets that `seal` returns for a list of messages with their associated data.
abbrev collect : Result Packet → List Packet → List Packet
collect (ok p) ps = p ∷ ps
collect (err e) ps = ps
collect panic ps = ps

pub seal_all : Crypto → ReplayWindowChannel → List (List ℕ × List ℕ) → List Packet
seal_all c ch [] = []
seal_all c ch ((plaintext, aad) ∷ jobs) =
    let (result, ch') = seal c ch plaintext aad in collect result (seal_all c ch' jobs)

-- A packet that the channel can still send: its sequence number is not used up.
abbrev IsAhead : ReplayWindowChannel → ℕ → Packet → Type 0
IsAhead ch low p =
    (low ≤ p.sequence)
    × (p.sequence < 2 ^ 64)
    × (p.nonce ≡ compute_nonce ch.tx_nonce_mask p.sequence)

abbrev pub DistinctNonces : List Packet → Type 0
DistinctNonces [] = Unit
DistinctNonces (p ∷ ps) = All (λ q. p.nonce ≢ q.nonce) ps × DistinctNonces ps

module _ (c : Crypto) (ch : ReplayWindowChannel) (plaintext aad : List ℕ)
    (jobs : List (List ℕ × List ℕ)) where
  seal_all_sent :
      {p : Packet} {next : ℕ}
      → seal_packet c ch plaintext aad ≡ ok (p, next)
      → seal_all c ch ((plaintext, aad) ∷ jobs) ≡ p ∷ seal_all c (record ch { tx_seq = next }) jobs
  unfolding seal_all seal
  seal_all_sent e = ground arith

  seal_all_failed :
      ((x : Error) × (seal_packet c ch plaintext aad ≡ err x))
        ⊎ (seal_packet c ch plaintext aad ≡ panic)
      → seal_all c ch ((plaintext, aad) ∷ jobs) ≡ seal_all c ch jobs
  unfolding seal_all seal
  seal_all_failed e = ground arith

-- The packet just sealed has another nonce than those that follow.
ne_of_ahead :
    (ch : ReplayWindowChannel) (p q : Packet)
    → length ch.tx_nonce_mask ≡ 12
    → IsAhead ch p.sequence p
    → IsAhead ch (p.sequence + 1) q
    → p.nonce ≢ q.nonce
ne_of_ahead ch p q m (_, hp, np) (ahead, hq, nq) same = absurd (
    omega (
      arith,
      compute_nonce-injective ch.tx_nonce_mask p.sequence q.sequence m hp hq (sym np ∙ same ∙ nq),
    ))

seal_packet-IsAhead :
    (c : Crypto) (ch : ReplayWindowChannel) (plaintext aad : List ℕ) {p : Packet} {next : ℕ}
    → seal_packet c ch plaintext aad ≡ ok (p, next)
    → IsAhead ch ch.tx_seq p × (p.sequence ≡ ch.tx_seq) × (next ≡ ch.tx_seq + 1)
seal_packet-IsAhead c ch plaintext aad e =
    let (made, moved) = seal_packet-SealedAs c ch plaintext aad e in
    (
      (
        omega (arith, made.sequence),
        omega (arith, made.sequence, made.room),
        made.nonce ∙ ap (compute_nonce ch.tx_nonce_mask) (sym made.sequence),
      ),
      made.sequence,
      moved,
    )

seal_all-IsAhead :
    (c : Crypto) (ch : ReplayWindowChannel) (low : ℕ) (jobs : List (List ℕ × List ℕ))
    → low ≤ ch.tx_seq
    → All (IsAhead ch low) (seal_all c ch jobs)
unfolding seal_all
seal_all-IsAhead c ch low [] h = tt
seal_all-IsAhead c ch low ((plaintext, aad) ∷ jobs) h =
    elim (Result-cases (seal_packet c ch plaintext aad)) [
      | inl ((p, next), e) ↦
          let ((at, fits, nonce), here, moved) = seal_packet-IsAhead c ch plaintext aad e in
          subst (All (IsAhead ch low)) (sym (seal_all_sent c ch plaintext aad jobs e)) (
            (omega arith, fits, nonce),
            seal_all-IsAhead c (record ch { tx_seq = next }) low jobs (omega arith),
          )
      | inr e ↦
          subst (All (IsAhead ch low)) (sym (seal_all_failed c ch plaintext aad jobs e))
            (seal_all-IsAhead c ch low jobs h)
    ]

-- Whatever messages a channel with a mask of 12 bytes seals, no two of the packets have one nonce.
pub seal_all-DistinctNonces :
    (c : Crypto) (ch : ReplayWindowChannel) (jobs : List (List ℕ × List ℕ))
    → length ch.tx_nonce_mask ≡ 12
    → DistinctNonces (seal_all c ch jobs)
unfolding seal_all
seal_all-DistinctNonces c ch [] m = tt
seal_all-DistinctNonces c ch ((plaintext, aad) ∷ jobs) m =
    elim (Result-cases (seal_packet c ch plaintext aad)) [
      | inl ((p, next), e) ↦
          let (ahead, here, moved) = seal_packet-IsAhead c ch plaintext aad e in
          let ch' : ReplayWindowChannel = record ch { tx_seq = next } in
          let behind : All (IsAhead ch (p.sequence + 1)) (seal_all c ch' jobs) =
            seal_all-IsAhead c ch' (p.sequence + 1) jobs (omega arith) in
          let first : IsAhead ch p.sequence p = (omega arith, ahead.1, ahead.2) in
          subst DistinctNonces (sym (seal_all_sent c ch plaintext aad jobs e)) (
            All-mono (λ q. ne_of_ahead ch p q m first) (seal_all c ch' jobs) behind,
            seal_all-DistinctNonces c ch' jobs m,
          )
      | inr e ↦
          subst DistinctNonces (sym (seal_all_failed c ch plaintext aad jobs e))
            (seal_all-DistinctNonces c ch jobs m)
    ]

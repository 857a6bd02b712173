-- ===== src/Crypto/Toy.antt =====
-- A value of `Crypto` with its laws, which shows that they can hold. It is no cryptography: the
-- tag is a checksum, and it is what the concrete runs of the other modules use.
use Prim.Native.Nat.{ℕ, zero, suc, ◌+◌, ◌-◌, ◌*◌, ◌%◌}
use cripto_endevs_comunity.Base.{
  ◌≡◌, refl, sym, ap, ◌∙◌, subst, inl, true, false, Option, some, none, List, [], ◌∷◌, ◌++◌, length,
  take, drop, if◌then◌else◌, ltb, list_eq, arith, list_eq_sound, list_eq_refl, length-append,
  take-append-drop, take-append, drop-append, All-append, drop_at, Bool-cases, inr, le→ltb,
}
use mathlib.Core.Option.{some-injective}
use cripto_endevs_comunity.Bytes.{IsBytes, IsByte}
use cripto_endevs_comunity.Crypto.{Crypto, IsLawful}

-- A checksum that depends on the order.
unfoldable pub mix : ℕ → List ℕ → ℕ
mix acc [] = acc
mix acc (b ∷ bs) = mix ((acc * 31 + b + 7) % 251) bs

-- `n` bytes made of a checksum.
unfoldable pub spread : ℕ → List ℕ → List ℕ
unfolding mix
spread zero bs = []
spread (suc n) bs = mix n bs % 256 ∷ spread n bs

length-spread : (n : ℕ) (bs : List ℕ) → length (spread n bs) ≡ n
unfolding spread
length-spread zero bs = refl
length-spread (suc n) bs = ap suc (length-spread n bs)

spread-IsBytes : (n : ℕ) (bs : List ℕ) → IsBytes (spread n bs)
unfolding spread
spread-IsBytes zero bs = tt
spread-IsBytes (suc n) bs = (omega arith, spread-IsBytes n bs)

unfoldable pub tag : (key nonce msg aad : List ℕ) → List ℕ
unfolding spread
tag key nonce msg aad = spread 16 (key ++ (nonce ++ (msg ++ aad)))

length-tag : (key nonce msg aad : List ℕ) → length (tag key nonce msg aad) ≡ 16
unfolding tag
length-tag key nonce msg aad = length-spread 16 (key ++ (nonce ++ (msg ++ aad)))

tag-IsBytes : (key nonce msg aad : List ℕ) → IsBytes (tag key nonce msg aad)
unfolding tag
tag-IsBytes key nonce msg aad = spread-IsBytes 16 (key ++ (nonce ++ (msg ++ aad)))

abbrev encrypt : (key nonce msg aad : List ℕ) → Option (List ℕ)
encrypt key nonce msg aad = some (msg ++ tag key nonce msg aad)

abbrev body : List ℕ → List ℕ
body ct = take (length ct - 16) ct

abbrev decrypt : (key nonce ct aad : List ℕ) → Option (List ℕ)
decrypt key nonce ct aad =
    if ltb (length ct) 16
    then none
    else if list_eq (drop (length ct - 16) ct) (tag key nonce (body ct) aad)
    then some (body ct)
    else none

abbrev pub toy : Crypto
toy = record {
  encrypt = encrypt;
  decrypt = decrypt;
  extract = λ salt ikm. salt ++ ikm;
  expand = λ prk info len. spread len (prk ++ info);
  sha256 = spread 32;
  base64_encode = λ bs. bs;
  base64_decode = λ bs. inl bs;
  is_utf8 = λ bs. true;
}

module _ (key nonce msg aad : List ℕ) where
  length-sealed : length (msg ++ tag key nonce msg aad) ≡ length msg + 16
  length-sealed =
      omega (arith, length-append msg (tag key nonce msg aad), length-tag key nonce msg aad)

  body-sealed : body (msg ++ tag key nonce msg aad) ≡ msg
  body-sealed = take-append msg (tag key nonce msg aad) _ (omega (arith, length-sealed))

  tag-sealed :
      drop (length (msg ++ tag key nonce msg aad) - 16) (msg ++ tag key nonce msg aad)
      ≡ tag key nonce msg aad
  tag-sealed =
      drop-append msg (tag key nonce msg aad) _ (omega (arith, length-sealed))
      ∙ drop_at {n = length (msg ++ tag key nonce msg aad) - 16 - length msg} {m = 0}
          (tag key nonce msg aad) (omega (arith, length-sealed))

decrypt-encrypt :
    (key nonce msg aad ct : List ℕ)
    → encrypt key nonce msg aad ≡ some ct
    → decrypt key nonce ct aad ≡ some msg
decrypt-encrypt key nonce msg aad ct h =
    let e : ct ≡ msg ++ tag key nonce msg aad = cc in
    let size : ltb (length (msg ++ tag key nonce msg aad)) 16 ≡ false =
      le→ltb _ 16 (omega (arith, length-sealed key nonce msg aad)) in
    rw
      (
        e,
        size,
        body-sealed key nonce msg aad,
        tag-sealed key nonce msg aad,
        list_eq_refl (tag key nonce msg aad),
      )
      refl

encrypt-decrypt :
    (key nonce msg aad ct : List ℕ)
    → decrypt key nonce ct aad ≡ some msg
    → encrypt key nonce msg aad ≡ some ct
encrypt-decrypt key nonce msg aad ct h = elim (Bool-cases (ltb (length ct) 16)) [
  | inl short ↦ cc (rw short at h)
  | inr long ↦
      elim (Bool-cases (list_eq (drop (length ct - 16) ct) (tag key nonce (body ct) aad))) [
        | inl good ↦
            let m : body ct ≡ msg = ground arith in
            let t : drop (length ct - 16) ct ≡ tag key nonce (body ct) aad =
              list_eq_sound _ _ good in
            ap some (rw (← m) (rw (← t) (take-append-drop (length ct - 16) ct)))
        | inr bad ↦ ground arith
      ]
]

pub toy-IsLawful : IsLawful toy
toy-IsLawful = record {
  decrypt-encrypt = decrypt-encrypt;
  encrypt-decrypt = encrypt-decrypt;
  length-encrypt = λ key nonce msg aad ct h.
      ap length (sym (some-injective _ _ h)) ∙ length-sealed key nonce msg aad;
  encrypt-IsBytes = λ key nonce msg aad ct b h.
      subst IsBytes (some-injective _ _ h)
        (All-append IsByte msg _ b (tag-IsBytes key nonce msg aad));
  length-expand = λ prk info len. length-spread len (prk ++ info);
  expand-IsBytes = λ prk info len. spread-IsBytes len (prk ++ info);
  length-sha256 = length-spread 32;
  sha256-IsBytes = spread-IsBytes 32;
  decode-encode = λ bs h. refl;
}

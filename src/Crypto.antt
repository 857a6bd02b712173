-- ===== src/Crypto.antt =====
-- The cryptography that the crate calls: the `aes-gcm`, `hkdf`, `sha2` and `base64` crates. Their
-- code is not in this repository, so that they are the fields of a record, and what the crate relies
-- on is the record of laws. Random nonces (`OsRng`) are arguments of the operations that draw them.
pub mod Toy
use cripto_endevs_comunity.Base.{ℕ, ◌+◌, ◌≡◌, ◌⊎◌, inl, Bool, Option, some, List, length}
use cripto_endevs_comunity.Bytes.{IsBytes}

pub record Crypto : Type 0 where
  -- `Aes256Gcm::new(key).encrypt(nonce, Payload { msg, aad })`, and `decrypt`
  pub encrypt : (key nonce msg aad : List ℕ) → Option (List ℕ)
  pub decrypt : (key nonce ciphertext aad : List ℕ) → Option (List ℕ)
  -- `Hkdf::<Sha256>::extract(Some(salt), ikm)`, and `from_prk(prk).expand(info, &mut [0; len])`
  pub extract : (salt ikm : List ℕ) → List ℕ
  pub expand : (prk info : List ℕ) (len : ℕ) → List ℕ
  pub sha256 : List ℕ → List ℕ
  -- `STANDARD.encode`; `STANDARD.decode` gives the bytes or the text of its error.
  pub base64_encode : List ℕ → List ℕ
  pub base64_decode : List ℕ → List ℕ ⊎ List ℕ
  -- Whether `String::from_utf8` accepts the bytes.
  pub is_utf8 : List ℕ → Bool

-- `Hkdf::<Sha256>::new(Some(salt), ikm).expand(info, &mut [0; len])`
abbrev pub hkdf : Crypto → (salt ikm info : List ℕ) → ℕ → List ℕ
hkdf c salt ikm info len = c.expand (c.extract salt ikm) info len

-- What the crates document: AES-256-GCM decrypts what it encrypted, accepts no other ciphertext than
-- the one that encryption gives, and appends a tag of 16 bytes; the hash and the key derivation fill
-- arrays of the length asked for; base64 is a round trip.
pub record IsLawful (c : Crypto) : Type 0 where
  pub decrypt-encrypt :
      (key nonce msg aad ct : List ℕ)
      → c.encrypt key nonce msg aad ≡ some ct
      → c.decrypt key nonce ct aad ≡ some msg
  pub encrypt-decrypt :
      (key nonce msg aad ct : List ℕ)
      → c.decrypt key nonce ct aad ≡ some msg
      → c.encrypt key nonce msg aad ≡ some ct
  pub length-encrypt :
      (key nonce msg aad ct : List ℕ)
      → c.encrypt key nonce msg aad ≡ some ct
      → length ct ≡ length msg + 16
  pub encrypt-IsBytes :
      (key nonce msg aad ct : List ℕ)
      → IsBytes msg
      → c.encrypt key nonce msg aad ≡ some ct
      → IsBytes ct
  pub length-expand : (prk info : List ℕ) (len : ℕ) → length (c.expand prk info len) ≡ len
  pub expand-IsBytes : (prk info : List ℕ) (len : ℕ) → IsBytes (c.expand prk info len)
  pub length-sha256 : (bs : List ℕ) → length (c.sha256 bs) ≡ 32
  pub sha256-IsBytes : (bs : List ℕ) → IsBytes (c.sha256 bs)
  pub decode-encode : (bs : List ℕ) → IsBytes bs → c.base64_decode (c.base64_encode bs) ≡ inl bs

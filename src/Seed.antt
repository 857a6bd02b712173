-- ===== src/Seed.antt =====
-- src/seed.rs: the master seed, which is its 32 bytes. Those that `generate` draws from `OsRng` are its
-- argument; clearing the memory of a seed is not modelled.
use cripto_endevs_comunity.Base.{
  ℕ, ◌≡◌, refl, ap, ◌∙◌, Bool, true, ◌&&◌, ◌||◌, List, [], ◌∷◌, length, ◌==◌, if◌then◌else◌, codes,
  arith,
}
use cripto_endevs_comunity.Error.{Result, ok, err, ◌>>=◌, ◌>>◌, require, semilla_invalida}
use cripto_endevs_comunity.Bytes.{IsBytes}
use cripto_endevs_comunity.Crypto.{Crypto, IsLawful, hkdf}
use cripto_endevs_comunity.Packet.{decoded}

pub record MasterSeed : Type 0 where
  pub bytes : List ℕ

unfoldable pub generate : (drawn : List ℕ) → MasterSeed
generate drawn = record { bytes = drawn }

-- `bytes.iter().all(|&b| b == v)`
unfoldable pub all_eq : ℕ → List ℕ → Bool
all_eq v [] = true
all_eq v (b ∷ bs) = (b == v) && all_eq v bs

-- `bytes[0]`; an array of 32 bytes is not empty.
abbrev pub first_of : List ℕ → ℕ
first_of [] = 0
first_of (b ∷ bs) = b

unfoldable pub from_bytes : List ℕ → Result MasterSeed
from_bytes bytes =
    if all_eq 0 bytes || all_eq (first_of bytes) bytes
    then err semilla_invalida
    else ok (record { bytes = bytes })

unfoldable pub from_transfer_token : Crypto → (token : List ℕ) → Result MasterSeed
from_transfer_token c token = do
  bytes ← decoded (c.base64_decode token)
  require (length bytes == 32) semilla_invalida
  from_bytes bytes

pub export_for_transfer : Crypto → MasterSeed → List ℕ
export_for_transfer c seed = c.base64_encode seed.bytes

pub derive_subseed : Crypto → MasterSeed → (purpose : List ℕ) → MasterSeed
derive_subseed c seed purpose = record {
  bytes = hkdf c (codes "CryptoNugget:subseed:v1") seed.bytes purpose 32;
}

pub derive_wrap_key : Crypto → MasterSeed → (storage_domain : List ℕ) → List ℕ
derive_wrap_key c seed storage_domain =
    hkdf c (codes "CryptoNugget:wrap-key:v1") seed.bytes storage_domain 32

from_transfer_token-base64_encode :
    (c : Crypto) (bytes : List ℕ)
    → IsLawful c
    → IsBytes bytes
    → length bytes ≡ 32
    → from_transfer_token c (c.base64_encode bytes) ≡ from_bytes bytes
unfolding from_transfer_token
from_transfer_token-base64_encode c bytes lawful b size =
    let long : (length bytes == 32) ≡ true = rw size refl in
    rw (lawful.decode-encode bytes b, long) refl

-- A seed that `from_bytes` accepts comes back from the token that it exports.
pub from_transfer_token-export_for_transfer :
    (c : Crypto) (bytes : List ℕ) (seed : MasterSeed)
    → IsLawful c
    → IsBytes bytes
    → length bytes ≡ 32
    → from_bytes bytes ≡ ok seed
    → from_transfer_token c (export_for_transfer c seed) ≡ ok seed
unfolding export_for_transfer
from_transfer_token-export_for_transfer c bytes seed lawful b size made =
    let same : seed.bytes ≡ bytes = unfold from_bytes in ground arith in
    ap (λ (bs : List ℕ). from_transfer_token c (c.base64_encode bs)) same
    ∙ from_transfer_token-base64_encode c bytes lawful b size
    ∙ made

-- ===== src/Panics/Input.antt =====
-- Everything that reads what another party wrote: the formats, the transfer token and the link.
use cripto_endevs_comunity.Base.{
  ℕ, ◌≢◌, ◌||◌, List, length, ◌==◌, ◌⊎◌, inl, inr, Option, none, some,
}
use cripto_endevs_comunity.Error.{Result, ok, err, panic, semilla_invalida}
use cripto_endevs_comunity.Bytes.{IsBytes}
use cripto_endevs_comunity.Crypto.{Crypto, IsLawful}
use cripto_endevs_comunity.Packet.{from_bytes, from_base64, decoded}
use cripto_endevs_comunity.Packet.Canonical.{from_bytes-ne-panic}
use cripto_endevs_comunity.Chrono.{ChronoMeshNode}
use cripto_endevs_comunity.Chrono.Checkpoint.{decode_checkpoint}
use cripto_endevs_comunity.Wal.{recover_from_bytes}
use cripto_endevs_comunity.Wal.Soundness.{recover_from_bytes-ne-panic}
use cripto_endevs_comunity.DualSlot.{open_slot}
use cripto_endevs_comunity.DualSlot
use cripto_endevs_comunity.Seed.{MasterSeed, all_eq, first_of, from_transfer_token}
use cripto_endevs_comunity.Seed
use cripto_endevs_comunity.Ordered.Snapshot.{import_state}
use cripto_endevs_comunity.Ordered.Links.{
  link_prefix, or_enlace_invalido, after_prefix, extraer_semilla_de_enlace,
}
use cripto_endevs_comunity.Texts.{strip_prefix}
use cripto_endevs_comunity.Panics.{
  bind-ne-panic, ok-ne-panic, err-ne-panic, require-ne-panic, if-ne-panic,
}
use cripto_endevs_comunity.Panics.Decoders.{dual_from_bytes-ne-panic, open_slot-ne-panic}
use cripto_endevs_comunity.Panics.States.{decode_checkpoint-ne-panic, import_state-ne-panic}

decoded-ne-panic : (r : List ℕ ⊎ List ℕ) → decoded r ≢ panic
decoded-ne-panic (inl bytes) = ok-ne-panic
decoded-ne-panic (inr message) = err-ne-panic

from_base64-ne-panic : (c : Crypto) (text : List ℕ) → from_base64 c text ≢ panic
unfolding from_base64
from_base64-ne-panic c text =
    bind-ne-panic (decoded (c.base64_decode text)) (decoded-ne-panic (c.base64_decode text))
      (λ bs same. from_bytes-ne-panic bs)

pub seed_from_bytes-ne-panic : (bs : List ℕ) → Seed.from_bytes bs ≢ panic
unfolding Seed.from_bytes
seed_from_bytes-ne-panic bs =
    if-ne-panic (all_eq 0 bs || all_eq (first_of bs) bs) (λ weak. err-ne-panic)
      (λ strong. ok-ne-panic)

from_transfer_token-ne-panic : (c : Crypto) (text : List ℕ) → from_transfer_token c text ≢ panic
unfolding from_transfer_token
from_transfer_token-ne-panic c text =
    bind-ne-panic (decoded (c.base64_decode text)) (decoded-ne-panic (c.base64_decode text))
      (λ bs same.
        require-ne-panic (length bs == 32) semilla_invalida (Seed.from_bytes bs)
          (λ size. seed_from_bytes-ne-panic bs))

or_enlace_invalido-ne-panic : (r : Result MasterSeed) → r ≢ panic → or_enlace_invalido r ≢ panic
or_enlace_invalido-ne-panic (ok seed) safe = ok-ne-panic
or_enlace_invalido-ne-panic (err e) safe = err-ne-panic
or_enlace_invalido-ne-panic panic safe = safe

after_prefix-ne-panic : (c : Crypto) (rest : Option (List ℕ)) → after_prefix c rest ≢ panic
unfolding after_prefix
after_prefix-ne-panic c none = err-ne-panic
after_prefix-ne-panic c (some text) =
    or_enlace_invalido-ne-panic (from_transfer_token c text) (from_transfer_token-ne-panic c text)

extraer_semilla_de_enlace-ne-panic :
    (c : Crypto) (text : List ℕ) → extraer_semilla_de_enlace c text ≢ panic
unfolding extraer_semilla_de_enlace
extraer_semilla_de_enlace-ne-panic c text = after_prefix-ne-panic c (strip_prefix link_prefix text)

-- No bytes make a decoder panic: that of a packet, of its base64 text, of a journal, of a container, of
-- one of its slots, of a checkpoint, of a snapshot, of a transfer token and of an invitation link.
pub decoders-ne-panic :
    (c : Crypto) (n : ChronoMeshNode) (bs wrap_key context : List ℕ)
    → IsLawful c
    → IsBytes bs
    → (from_bytes bs ≢ panic)
      × (from_base64 c bs ≢ panic)
      × (recover_from_bytes c bs ≢ panic)
      × (DualSlot.from_bytes bs ≢ panic)
      × (open_slot c bs wrap_key ≢ panic)
      × (decode_checkpoint c n bs wrap_key ≢ panic)
      × (import_state c bs wrap_key context ≢ panic)
      × (from_transfer_token c bs ≢ panic)
      × (extraer_semilla_de_enlace c bs ≢ panic)
decoders-ne-panic c n bs wrap_key context lawful b = (
  from_bytes-ne-panic bs,
  from_base64-ne-panic c bs,
  recover_from_bytes-ne-panic c bs lawful b,
  dual_from_bytes-ne-panic bs,
  open_slot-ne-panic c bs wrap_key,
  decode_checkpoint-ne-panic c n bs wrap_key,
  import_state-ne-panic c bs wrap_key context,
  from_transfer_token-ne-panic c bs,
  extraer_semilla_de_enlace-ne-panic c bs,
)

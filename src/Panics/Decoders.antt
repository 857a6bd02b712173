-- ===== src/Panics/Decoders.antt =====
-- The decoders of the container, of a slot, of a checkpoint, of a snapshot and of a transfer token.
use cripto_endevs_comunity.Base.{
  ℕ, ◌+◌, ◌≤◌, ◌≢◌, arith, List, length, ltb, leb, ltb→le, leb→le, list_eq, Option, none, some,
  if◌then◌else◌, [],
}
use cripto_endevs_comunity.Error.{ok, panic}
use cripto_endevs_comunity.Bytes.{slice}
use cripto_endevs_comunity.Panics.{
  bind-ne-panic, ok-ne-panic, err-ne-panic, reject-ne-panic, require-ne-panic, if-ne-panic,
  slice-ne-panic, slice_from-ne-panic, read_be-ne-panic, checked_add-ne-panic,
}
use cripto_endevs_comunity.DualSlot.{
  DualSlotContainer, from_bytes, from_bytes_b, open_slot, opened, slot_aad, magic_dual, try_slot,
  first_of, recover_latest_valid,
}
use cripto_endevs_comunity.Crypto.{Crypto}
use cripto_endevs_comunity.Bytes.Slices.{slice-ok}

slice-ne-panic' : (lo hi : ℕ) (bs : List ℕ) → lo ≤ hi → hi ≤ length bs → slice lo hi bs ≢ panic
slice-ne-panic' lo hi bs low high = rw (slice-ok lo hi bs low high) ok-ne-panic

opened-ne-panic : (o : Option (List ℕ)) → opened o ≢ panic
opened-ne-panic none = err-ne-panic
opened-ne-panic (some plaintext) = ok-ne-panic

first_of-ne-panic : (a b : Option (ℕ × List ℕ)) → first_of a b ≢ panic
unfolding first_of
first_of-ne-panic (some r) b = ok-ne-panic
first_of-ne-panic none (some r) = ok-ne-panic
first_of-ne-panic none none = err-ne-panic

from_bytes_b-ne-panic :
    (bs slot_a : List ℕ) (generation_a end_a : ℕ)
    → from_bytes_b bs generation_a end_a slot_a ≢ panic
unfolding from_bytes_b
from_bytes_b-ne-panic bs slot_a generation_a end_a =
    if-ne-panic (ltb (length bs) (end_a + 12)) (λ short. ok-ne-panic)
      (λ long.
        let there : end_a + 12 ≤ length bs = ltb→le _ _ long in
        read_be-ne-panic 8 end_a bs (omega arith) (λ g.
          read_be-ne-panic 4 (end_a + 8) bs (omega arith) (λ len.
            checked_add-ne-panic (end_a + 12) len _ _ (
              bind-ne-panic
                (if leb (end_a + 12 + len) (length bs)
                  then slice (end_a + 12) (end_a + 12 + len) bs
                  else ok [])
                (if-ne-panic (leb (end_a + 12 + len) (length bs))
                  (λ fits.
                    let fits' : end_a + 12 + len ≤ length bs = leb→le _ _ fits in
                    slice-ne-panic' (end_a + 12) (end_a + 12 + len) bs (omega arith) fits')
                  (λ over. ok-ne-panic))
                (λ slot_b same. ok-ne-panic)))))

pub dual_from_bytes-ne-panic : (bs : List ℕ) → from_bytes bs ≢ panic
unfolding from_bytes
dual_from_bytes-ne-panic bs = reject-ne-panic (ltb (length bs) 16) _ _ (λ long.
    let there : 16 ≤ length bs = ltb→le _ _ long in
    slice-ne-panic 0 4 bs (omega arith) (omega arith) (λ magic.
      require-ne-panic (list_eq magic magic_dual) _ _ (λ same.
        read_be-ne-panic 8 4 bs (omega arith) (λ generation.
          read_be-ne-panic 4 12 bs (omega arith) (λ len_a. checked_add-ne-panic 16 len_a _ _ (
            reject-ne-panic (ltb (length bs) (16 + len_a)) _ _ (λ whole.
              let end_a : 16 + len_a ≤ length bs = ltb→le _ _ whole in
              slice-ne-panic 16 (16 + len_a) bs (omega arith) end_a
                (λ slot_a. from_bytes_b-ne-panic bs slot_a generation (16 + len_a)))))))))

pub open_slot-ne-panic : (c : Crypto) (bs wrap_key : List ℕ) → open_slot c bs wrap_key ≢ panic
unfolding open_slot
open_slot-ne-panic c bs wrap_key = reject-ne-panic (ltb (length bs) 36) _ _ (λ long.
    let there : 36 ≤ length bs = ltb→le _ _ long in
    read_be-ne-panic 8 0 bs (omega arith) (λ generation.
      slice-ne-panic 8 20 bs (omega arith) (omega arith) (λ nonce.
        slice_from-ne-panic 20 bs (omega arith) (λ ciphertext.
          bind-ne-panic (opened (c.decrypt wrap_key nonce ciphertext (slot_aad generation)))
            (opened-ne-panic (c.decrypt wrap_key nonce ciphertext (slot_aad generation)))
            (λ plaintext same. ok-ne-panic)))))

-- A slot is accepted or not, without the panic that `accept` would take for a slot that fails.
pub recover_latest_valid-ne-panic :
    (c : Crypto) (d : DualSlotContainer) (wrap_key : List ℕ)
    → recover_latest_valid c d wrap_key ≢ panic
unfolding recover_latest_valid
recover_latest_valid-ne-panic c d wrap_key =
    let a = try_slot c wrap_key d.slot_a d.generation_a in
    let b = try_slot c wrap_key d.slot_b d.generation_b in
    if-ne-panic (leb d.generation_b d.generation_a) (λ newer. first_of-ne-panic a b)
      (λ older. first_of-ne-panic b a)

-- ===== src/Chrono/Integrity.antt =====
-- The integrity hash of a node: a set of packets, whatever their order.
use mathlib.Core.List.{Permᴰ}
use mathlib.Core.List.Permᴰ.{nil, cons, swap, trans}
use cripto_endevs_comunity.Base.{ℕ, ◌≡◌, refl, ap, ◌∙◌, List, [], ◌∷◌, length, arith, ◌↔◌}
use cripto_endevs_comunity.Error.{ok}
use cripto_endevs_comunity.Bytes.Compare.{diff_bytes_self, diff_bytes-zero, xor_bytes_comm}
use cripto_endevs_comunity.Crypto.{Crypto}
use cripto_endevs_comunity.Packet.{Packet}
use cripto_endevs_comunity.Chrono.{
  ChronoMeshNode, fold_packet_into_integrity_hash, packet_digest, current_integrity_sha256,
  verify_integrity_checkpoint,
}

-- The hash after some packets.
unfoldable pub fold_all : Crypto → List ℕ → List Packet → List ℕ
fold_all c acc [] = acc
fold_all c acc (p ∷ ps) = fold_all c (fold_packet_into_integrity_hash c acc p) ps

pub fold_packet_comm :
    (c : Crypto) (acc : List ℕ) (p q : Packet)
    → fold_packet_into_integrity_hash c (fold_packet_into_integrity_hash c acc p) q
      ≡ fold_packet_into_integrity_hash c (fold_packet_into_integrity_hash c acc q) p
unfolding fold_packet_into_integrity_hash
fold_packet_comm c acc p q = xor_bytes_comm acc (packet_digest c p) (packet_digest c q)

-- Two nodes that sealed or opened the same packets hold the same hash, in whatever order each of
-- them saw the packets.
pub fold_all_perm :
    (c : Crypto) (acc : List ℕ) (ps qs : List Packet)
    → Permᴰ ps qs
    → fold_all c acc ps ≡ fold_all c acc qs
unfolding fold_all
fold_all_perm c acc _ _ nil = refl
fold_all_perm c acc _ _ (cons {a = p} {b = q} {l₁ = ps} {l₂ = qs} e perm) =
    rw e (fold_all_perm c (fold_packet_into_integrity_hash c acc q) ps qs perm)
fold_all_perm c acc _ _ (swap {a' = p'} {b' = q'} {l = rest} e e') =
    rw (e, e') (ap (λ h. fold_all c h rest) (fold_packet_comm c acc q' p'))
fold_all_perm c acc ps rs (trans {l₂ = qs} left right) =
    fold_all_perm c acc ps qs left ∙ fold_all_perm c acc qs rs right

-- The comparison in constant time accepts exactly the hash that the node holds, among all of its
-- length.
pub verify_integrity_checkpoint_iff :
    (n : ChronoMeshNode) (expected : List ℕ)
    → length n.multiset_integrity_hash ≡ length expected
    → (verify_integrity_checkpoint n expected ≡ ok tt) ↔ (n.multiset_integrity_hash ≡ expected)
unfolding verify_integrity_checkpoint current_integrity_sha256
verify_integrity_checkpoint_iff n expected size = (
  λ h. diff_bytes-zero n.multiset_integrity_hash expected size (ground arith),
  λ e. rw (← e, diff_bytes_self n.multiset_integrity_hash) refl,
)

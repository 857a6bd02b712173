-- ===== src/Chrono/Threads/Bag.antt =====
-- The integrity hash under threads: it is a function of the bag of the packets that the node sealed and
-- opened, and of nothing else.
use mathlib.Core.Quot
use mathlib.Core.Quot.{Quot}
use mathlib.Core.List.{Permᴰ}
use cripto_endevs_comunity.Base.{ℕ, ◌≡◌, refl, sym, ap, ◌∙◌, List, [], ◌∷◌, ◌++◌, length, arith}
use cripto_endevs_comunity.Error.{Error, ok, err}
use cripto_endevs_comunity.Crypto.{Crypto}
use cripto_endevs_comunity.Packet.{Packet}
use cripto_endevs_comunity.Chrono.{ChronoMeshNode, draw_sequence, note_packet, open_commit}
use cripto_endevs_comunity.Chrono.Threads.{
  Running, fresh, Step, draw, note, verify, commit, refuse, Reach, here, next,
}
use cripto_endevs_comunity.Chrono.{
  fold_packet_into_integrity_hash, verify_integrity_checkpoint, current_integrity_sha256,
}
use cripto_endevs_comunity.Chrono.Integrity.{
  fold_all, fold_all_perm, fold_packet_comm, verify_integrity_checkpoint_iff,
}

-- Packets up to their order.
abbrev pub Bag : Type 0
Bag = Quot (Permᴰ {A = Packet})

abbrev pub bag_of : List Packet → Bag
bag_of = Quot.mk

-- The hash of a node that starts with `acc` and adds the packets of a bag.
pub hash_of : Crypto → (acc : List ℕ) → Bag → List ℕ
hash_of c acc = Quot.lift (hlevel) (fold_all c acc) (fold_all_perm c acc)

-- A packet that comes last could have come at any place.
fold_all-middle :
    (c : Crypto) (acc : List ℕ) (xs ys : List Packet) (p : Packet)
    → fold_all c acc (xs ++ (p ∷ ys))
      ≡ fold_packet_into_integrity_hash c (fold_all c acc (xs ++ ys)) p
unfolding fold_all
fold_all-middle c acc [] [] p = refl
fold_all-middle c acc [] (y ∷ ys) p =
    ap (λ (h : List ℕ). fold_all c h ys) (fold_packet_comm c acc p y)
    ∙ fold_all-middle c (fold_packet_into_integrity_hash c acc y) [] ys p
fold_all-middle c acc (x ∷ xs) ys p =
    fold_all-middle c (fold_packet_into_integrity_hash c acc x) xs ys p

-- The packets that a node added to its hash.
abbrev pub added : Running → List Packet
added r = r.noted ++ r.opened

module _ (c : Crypto) (n : ChronoMeshNode) (p : Packet) where
  hash-open_commit :
      (open_commit c n p).0 ≡ ok tt
      → (open_commit c n p).1.multiset_integrity_hash
        ≡ fold_packet_into_integrity_hash c n.multiset_integrity_hash p
  unfolding open_commit
  hash-open_commit h = ground arith

  hash-open_commit_err :
      {e : Error}
      → (open_commit c n p).0 ≡ err e
      → (open_commit c n p).1.multiset_integrity_hash ≡ n.multiset_integrity_hash
  unfolding open_commit
  hash-open_commit_err h = ground arith

-- The hash of the node is that of the packets it added.
HashIs : Crypto → (acc : List ℕ) → Running → Type 0
HashIs c acc r = r.node.multiset_integrity_hash ≡ fold_all c acc (added r)

Step-HashIs :
    (c : Crypto) (acc : List ℕ) {r u : Running} → Step c r u → HashIs c acc r → HashIs c acc u
unfolding HashIs draw_sequence note_packet
Step-HashIs c acc (draw e) s = rw e s
Step-HashIs c acc {r} (note p e) s = rw e (
    ap (λ (h : List ℕ). fold_packet_into_integrity_hash c h p) s
    ∙ sym (fold_all-middle c acc [] (added r) p))
Step-HashIs c acc (verify p aad plaintext now_ms passed e) s = rw e s
Step-HashIs c acc {r} (commit p before after held good e) s = rw e (
    hash-open_commit c r.node p good
    ∙ ap (λ (h : List ℕ). fold_packet_into_integrity_hash c h p) s
    ∙ sym (fold_all-middle c acc r.noted r.opened p))
Step-HashIs c acc {r} (refuse p before after x held bad e) s =
    rw e (hash-open_commit_err c r.node p bad ∙ s)

Reach-HashIs :
    (c : Crypto) (acc : List ℕ) {r u : Running} → HashIs c acc r → Reach c r u → HashIs c acc u
Reach-HashIs c acc s here = s
Reach-HashIs c acc s (next steps step) = Step-HashIs c acc step (Reach-HashIs c acc s steps)

-- Two nodes that start with one hash and end with the same bag of packets, whatever their threads did
-- and in whatever order: each of them confirms the hash of the other.
pub Reach-verify_integrity_checkpoint :
    (c : Crypto) (n m : ChronoMeshNode) {u v : Running}
    → n.multiset_integrity_hash ≡ m.multiset_integrity_hash
    → Reach c (fresh n) u
    → Reach c (fresh m) v
    → bag_of (added u) ≡ bag_of (added v)
    → (verify_integrity_checkpoint u.node (current_integrity_sha256 v.node) ≡ ok tt)
      × (verify_integrity_checkpoint v.node (current_integrity_sha256 u.node) ≡ ok tt)
unfolding hash_of HashIs fold_all current_integrity_sha256
Reach-verify_integrity_checkpoint c n m {u} {v} start left right same =
    let of_u = Reach-HashIs c n.multiset_integrity_hash refl left in
    let of_v = Reach-HashIs c m.multiset_integrity_hash refl right in
    let bags : fold_all c n.multiset_integrity_hash (added u)
        ≡ fold_all c n.multiset_integrity_hash (added v) =
      ap (hash_of c n.multiset_integrity_hash) same in
    let equal : u.node.multiset_integrity_hash ≡ v.node.multiset_integrity_hash =
      of_u ∙ bags ∙ ap (λ (h : List ℕ). fold_all c h (added v)) start ∙ sym of_v in
    (
      (verify_integrity_checkpoint_iff u.node v.node.multiset_integrity_hash (ap length equal)).1
          equal,
      (verify_integrity_checkpoint_iff v.node u.node.multiset_integrity_hash
            (ap length (sym equal))).1
          (sym equal),
    )

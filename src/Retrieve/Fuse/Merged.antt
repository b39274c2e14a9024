-- ===== src/Retrieve/Fuse/Merged.antt =====
-- What FuseWeightedDecayed returns, whatever the weights, the demotions and the cut.
use rongo.Prelude.{
  ℕ, ◌≤◌, ◌<◌, ◌≡◌, refl, sym, ap, ◌∙◌, List, [], ◌∷◌, ◌++◌, map, length, take, drop, take_all,
  take-append-drop, length-take, arith,
}
use rongo.Prelude.Int.{ℤ}
use mathlib.Core.Path.{subst}
use mathlib.Core.Logic.Or
use mathlib.Core.List.{Mem, Mem-prop, Nodup, Nodup-nil, Perm, Subset, mem-append_left, not-mem-nil}
use mathlib.Core.List.Perm
use mathlib.Core.List.Nodup
use rongo.Retrieve.Hits.{Floats, Hit}
use rongo.Retrieve.Fuse.{Lane, Decays, ranked, diversify_by_repo, limit, fuse_weighted_decayed}
use rongo.Retrieve.Fuse.Order.{diversify_by_repo-perm}
use rongo.Retrieve.Fuse.Ids.{notes, notes-Nodup, notes-has, mem-notes, lane_ids, ranked-ids}

module _ {F : Type 0} (fl : Floats F) where
  abbrev pub ids : List (Hit F) → List ℕ
  ids hits = map (λ h. h.chunk_id) hits

  ids-append : (g h : List (Hit F)) → ids (g ++ h) ≡ ids g ++ ids h
  ids-append [] h = refl
  ids-append (x ∷ g) h = ap (λ l. x.chunk_id ∷ l) (ids-append g h)

  length-ids : (g : List (Hit F)) → length (ids g) ≡ length g
  length-ids [] = refl
  length-ids (x ∷ g) = omega (arith, length-ids g)

  module _ (lanes : List (Lane F)) (k : ℤ) (d : Decays F) where
    abbrev uncut : List (Hit F)
    uncut = diversify_by_repo fl (ranked fl lanes d) d.repo

    uncut-ids : Perm (ids uncut) (notes (lane_ids fl lanes) [])
    uncut-ids =
        Perm.trans (Perm.map _ (diversify_by_repo-perm fl (ranked fl lanes d) d.repo))
          (ranked-ids fl lanes d)

    abbrev kept : List (Hit F)
    kept = fuse_weighted_decayed fl lanes k d

    split : ids uncut ≡ ids kept ++ ids (drop (limit fl k) uncut)
    unfolding fuse_weighted_decayed
    split =
        sym (ap ids (take-append-drop (limit fl k) uncut))
        ∙ ids-append (take (limit fl k) uncut) (drop (limit fl k) uncut)

    uncut-Nodup : Nodup (ids uncut)
    uncut-Nodup = Perm.nodup (Perm.symm uncut-ids) (notes-Nodup (lane_ids fl lanes) [] Nodup-nil)

    -- The merged list has at most k hits, ten when k is not positive, no two of them are the same
    -- chunk, and each is a chunk that a lane that counts, whose weight is not zero or less, has found.
    pub fuse_weighted_decayed-ids :
        (length kept ≤ limit fl k) × Nodup (ids kept) × Subset (ids kept) (lane_ids fl lanes)
    unfolding fuse_weighted_decayed
    fuse_weighted_decayed-ids = (
      omega (arith, length-take (limit fl k) uncut),
      Nodup.of_append_left (ids (drop (limit fl k) uncut)) (subst Nodup split uncut-Nodup),
      λ id m.
          let inside = subst (Mem id) (sym split) (mem-append_left _ m) in
          Or.elim Mem-prop (mem-notes (lane_ids fl lanes) [] id ((Perm.mem_iff uncut-ids).0 inside))
            (λ h. h) (λ h. absurd (not-mem-nil h)),
    )

    -- While the merged list is shorter than the cut allows, it holds every chunk that a lane
    -- whose weight is not zero or less has found.
    pub fuse_weighted_decayed-complete :
        (id : ℕ) → length kept < limit fl k → Mem id (lane_ids fl lanes) → Mem id (ids kept)
    unfolding fuse_weighted_decayed
    fuse_weighted_decayed-complete id short m =
        let n = limit fl k in
        let all : take n uncut ≡ uncut =
          take_all n uncut (omega (arith, length-take n uncut, short)) in
        subst (λ l. Mem id (ids l)) (sym all)
          ((Perm.mem_iff uncut-ids).1 (notes-has (lane_ids fl lanes) [] id m))

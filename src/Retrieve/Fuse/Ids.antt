-- ===== src/Retrieve/Fuse/Ids.antt =====
-- Which hits the merged list holds: their ids are the distinct ids of the lanes that are not muted.
use rongo.Prelude.{
  ℕ, suc, ◌≡◌, refl, sym, ap, ◌∙◌, true, false, List, [], ◌∷◌, ◌++◌, map, Bool-cases, inl, inr,
  ◌==◌, ==_iff, ==_false→≢, if◌then◌else◌, ap-if, ◌&&◌,
}
use mathlib.Core.Logic.{◌∨₁◌, ∨₁_prop}
use mathlib.Core.Logic.Or
use mathlib.Core.HLevel.{⊥_prop}
use mathlib.Core.Path.{subst, ap₂}
use mathlib.Core.List.{
  Mem, Mem-prop, Nodup, Nodup-cons, mem-cons, mem-cons_self, mem-cons_of_mem, Perm, not-mem-nil,
}
use mathlib.Core.List.Perm
use rongo.Prelude.Sorting.{sort_stable, sort_stable-perm}
use rongo.Retrieve.Hits.{Floats, Hit}
use rongo.Retrieve.Fuse.{
  Lane, Agg, Decays, credit, keep_distance, add_hit, add_hits, add_lanes, demote, supporting_decay,
  before, written_back, ranked,
}

-- One more id, unless it is there.
unfoldable pub note : ℕ → List ℕ → List ℕ
note x [] = x ∷ []
note x (y ∷ ys) = let rest = note x ys in if y == x then y ∷ ys else y ∷ rest

-- The ids in the order in which they are first met.
unfoldable pub notes : List ℕ → List ℕ → List ℕ
unfolding note
notes [] seen = seen
notes (x ∷ xs) seen = notes xs (note x seen)

note-met : (x y : ℕ) (ys : List ℕ) → (y == x) ≡ true → note x (y ∷ ys) ≡ y ∷ ys
unfolding note
note-met x y ys t = rw (note, t) refl

note-other : (x y : ℕ) (ys : List ℕ) → (y == x) ≡ false → note x (y ∷ ys) ≡ y ∷ note x ys
unfolding note
note-other x y ys f = rw (note, f) refl

mem-note : (x z : ℕ) (l : List ℕ) → Mem z (note x l) → (z ≡ x) ∨₁ Mem z l
unfolding note
mem-note x z [] m = mem-cons.0 m
mem-note x z (y ∷ ys) m = elim (Bool-cases (y == x)) [
  | inl t ↦ Or.inr (subst (Mem z) (note-met x y ys t) m)
  | inr f ↦
      Or.elim ∨₁_prop (mem-cons.0 (subst (Mem z) (note-other x y ys f) m))
        (λ e. Or.inr (mem-cons.1 (Or.inl e)))
        (λ k. Or.imp (λ e. e) (mem-cons_of_mem y) (mem-note x z ys k))
]

note-keeps : (x z : ℕ) (l : List ℕ) → Mem z l → Mem z (note x l)
unfolding note
note-keeps x z [] m = absurd (not-mem-nil m)
note-keeps x z (y ∷ ys) m = elim (Bool-cases (y == x)) [
  | inl t ↦ subst (Mem z) (sym (note-met x y ys t)) m
  | inr f ↦ subst (Mem z) (sym (note-other x y ys f)) (
      Or.elim Mem-prop (mem-cons.0 m) (λ e. mem-cons.1 (Or.inl e))
        (λ k. mem-cons_of_mem y (note-keeps x z ys k)))
]

note-has : (x : ℕ) (l : List ℕ) → Mem x (note x l)
unfolding note
note-has x [] = mem-cons_self
note-has x (y ∷ ys) = elim (Bool-cases (y == x)) [
  | inl t ↦ subst (Mem x) (sym (note-met x y ys t)) (mem-cons.1 (Or.inl (sym ((==_iff y x).0 t))))
  | inr f ↦ subst (Mem x) (sym (note-other x y ys f)) (mem-cons_of_mem y (note-has x ys))
]

note-Nodup : (x : ℕ) (l : List ℕ) → Nodup l → Nodup (note x l)
unfolding note
note-Nodup x [] n = Nodup-cons.1 (not-mem-nil, n)
note-Nodup x (y ∷ ys) n = elim (Bool-cases (y == x)) [
  | inl t ↦ rw (note, t) n
  | inr f ↦
      let (apart, rest) = Nodup-cons.0 n in
      rw (note, f)
        (Nodup-cons.1
          (λ m. Or.elim ⊥_prop (mem-note x y ys m) (==_false→≢ y x f) apart, note-Nodup x ys rest))
]

pub notes-Nodup : (xs seen : List ℕ) → Nodup seen → Nodup (notes xs seen)
unfolding notes
notes-Nodup [] seen n = n
notes-Nodup (x ∷ xs) seen n = notes-Nodup xs (note x seen) (note-Nodup x seen n)

pub mem-notes : (xs seen : List ℕ) (z : ℕ) → Mem z (notes xs seen) → Mem z xs ∨₁ Mem z seen
unfolding notes
mem-notes [] seen z m = Or.inr m
mem-notes (x ∷ xs) seen z m =
    Or.elim ∨₁_prop (mem-notes xs (note x seen) z m) (λ k. Or.inl (mem-cons_of_mem x k))
      (λ k. Or.imp (λ e. mem-cons.1 (Or.inl e)) (λ h. h) (mem-note x z seen k))

notes-keeps : (xs seen : List ℕ) (z : ℕ) → Mem z seen → Mem z (notes xs seen)
unfolding notes
notes-keeps [] seen z m = m
notes-keeps (x ∷ xs) seen z m = notes-keeps xs (note x seen) z (note-keeps x z seen m)

pub notes-has : (xs seen : List ℕ) (z : ℕ) → Mem z xs → Mem z (notes xs seen)
unfolding notes
notes-has [] seen z m = absurd (not-mem-nil m)
notes-has (x ∷ xs) seen z m =
    Or.elim Mem-prop (mem-cons.0 m)
      (λ e.
        notes-keeps xs (note x seen) z (subst (λ t. Mem t (note x seen)) (sym e) (note-has x seen)))
      (λ k. notes-has xs (note x seen) z k)

notes-append : (xs ys seen : List ℕ) → notes (xs ++ ys) seen ≡ notes ys (notes xs seen)
unfolding notes
notes-append [] ys seen = refl
notes-append (x ∷ xs) ys seen = notes-append xs ys (note x seen)

module _ {F : Type 0} (fl : Floats F) where
  abbrev pub id_of : Agg F → ℕ
  id_of a = a.hit.chunk_id

  keep_distance-id : (h : Hit F) (a : Agg F) → id_of (keep_distance fl h a) ≡ id_of a
  unfolding keep_distance
  keep_distance-id h a =
      ap-if id_of (fl.eq a.hit.distance fl.zero && fl.lt fl.zero h.distance) _ a refl

  demote-id : (d : Decays F) (a : Agg F) → id_of (demote fl d a) ≡ id_of a
  unfolding demote
  demote-id d a =
      let f = supporting_decay fl a.hit.path d in
      ap-if id_of (fl.lt f fl.one) (record a { score = fl.times a.score f }) a refl

  -- The ids of the lanes that count, in the order of the lanes.
  unfoldable pub lane_ids : List (Lane F) → List ℕ
  lane_ids [] = []
  lane_ids (lane ∷ lanes) =
      let rest = lane_ids lanes in
      if fl.le lane.weight fl.zero then rest else map (λ h. h.chunk_id) lane.hits ++ rest

  add_hit-ids :
      (lane : Lane F) (rank : ℕ) (h : Hit F) (aggs : List (Agg F))
      → map id_of (add_hit fl lane rank h aggs) ≡ note h.chunk_id (map id_of aggs)
  unfolding add_hit note credit
  add_hit-ids lane rank h [] = refl
  add_hit-ids lane rank h (a ∷ aggs) = elim (Bool-cases (a.hit.chunk_id == h.chunk_id)) [
    | inl t ↦ rw (t, add_hit, note) (ap (λ i. i ∷ map id_of aggs) (keep_distance-id h a))
    | inr f ↦ rw (f, add_hit, note) (ap (λ l. a.hit.chunk_id ∷ l) (add_hit-ids lane rank h aggs))
  ]

  add_hits-ids :
      (lane : Lane F) (rank : ℕ) (hits : List (Hit F)) (aggs : List (Agg F))
      → map id_of (add_hits fl lane rank hits aggs)
        ≡ notes (map (λ h. h.chunk_id) hits) (map id_of aggs)
  unfolding add_hits notes
  add_hits-ids lane rank [] aggs = refl
  add_hits-ids lane rank (h ∷ hits) aggs =
      add_hits-ids lane (suc rank) hits (add_hit fl lane rank h aggs)
      ∙ ap (notes (map (λ g. g.chunk_id) hits)) (add_hit-ids lane rank h aggs)

  add_lanes-ids :
      (lanes : List (Lane F)) (aggs : List (Agg F))
      → map id_of (add_lanes fl lanes aggs) ≡ notes (lane_ids lanes) (map id_of aggs)
  unfolding add_lanes lane_ids notes
  add_lanes-ids [] aggs = refl
  add_lanes-ids (lane ∷ lanes) aggs = elim (Bool-cases (fl.le lane.weight fl.zero)) [
    | inl t ↦ rw (t, add_lanes, lane_ids) (add_lanes-ids lanes aggs)
    | inr f ↦
        let ids = map (λ h. h.chunk_id) lane.hits in
        rw (f, add_lanes, lane_ids)
          (add_lanes-ids lanes (add_hits fl lane 0 lane.hits aggs)
            ∙ ap (notes (lane_ids lanes)) (add_hits-ids lane 0 lane.hits aggs)
            ∙ sym (notes-append ids (lane_ids lanes) (map id_of aggs)))
  ]

  demoted-ids :
      (d : Decays F) (aggs : List (Agg F)) → map id_of (map (demote fl d) aggs) ≡ map id_of aggs
  demoted-ids d [] = refl
  demoted-ids d (a ∷ aggs) = ap₂ ◌∷◌ (demote-id d a) (demoted-ids d aggs)

  written-ids :
      (aggs : List (Agg F)) → map (λ h. h.chunk_id) (map (written_back fl) aggs) ≡ map id_of aggs
  written-ids [] = refl
  written-ids (a ∷ aggs) = ap (λ l. id_of a ∷ l) (written-ids aggs)

  pub ranked-ids :
      (lanes : List (Lane F)) (d : Decays F)
      → Perm (map (λ h. h.chunk_id) (ranked fl lanes d)) (notes (lane_ids lanes) [])
  unfolding ranked
  ranked-ids lanes d =
      let aggs = map (demote fl d) (add_lanes fl lanes []) in
      let e = demoted-ids d (add_lanes fl lanes []) ∙ add_lanes-ids lanes [] in
      subst (λ l. Perm l (notes (lane_ids lanes) []))
        (sym (written-ids (sort_stable (before fl) aggs)))
        (subst (λ l. Perm (map id_of (sort_stable (before fl) aggs)) l) e
          (Perm.map id_of (sort_stable-perm (before fl) aggs)))

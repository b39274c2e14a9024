-- ===== src/Retrieve/Fuse/Order.antt =====
-- The rearrangement by repository and the sort.
use rongo.Prelude.{
  ℕ, zero, suc, ◌+◌, ◌≤◌, ◌<◌, ◌≡◌, refl, Bool, true, false, ◌||◌, List, [], ◌∷◌, Bool-cases, inl,
  inr, length, get_or, ltb, arith, if◌then◌else◌,
}
use mathlib.Core.List.{Perm}
use mathlib.Core.List.Perm
use rongo.Retrieve.Hits.{Floats, Hit}
use rongo.Retrieve.Fuse.{
  Taken, best_place, remove_at, diversify_loop, diversify_by_repo, penalised, take_one, none_taken,
}

module _ {F : Type 0} (fl : Floats F) where
  next_seen :
      (b : Bool) (i best : ℕ) (sc score : F)
      → best < i
      → (if◌then◌else◌ {A = ℕ × F} b (i, sc) (best, score)).0 < suc i
  next_seen true i best sc score h = omega arith
  next_seen false i best sc score h = omega (arith, h)

  -- The place that the scan returns is one that it has seen.
  best_place-lt :
      (decay : F) (taken : Taken fl) (hits : List (Hit F)) (i best : ℕ) (score : F)
      → best < i
      → best_place fl decay taken hits i best score < i + length hits
  unfolding best_place
  best_place-lt decay taken [] i best score h = omega (arith, h)
  best_place-lt decay taken (x ∷ hits) i best score h =
      let sc = penalised fl decay x taken in
      let next : ℕ × F = if fl.lt score sc then (i, sc) else (best, score) in
      let seen = next_seen (fl.lt score sc) i best sc score h in
      let later = best_place-lt decay taken hits (suc i) next.0 next.1 seen in omega (arith, later)

  taken_out :
      (i : ℕ) (d : Hit F) (l : List (Hit F))
      → i < length l
      → Perm (get_or l i d ∷ remove_at fl i l) l
  unfolding remove_at
  taken_out i d [] h = absurd (omega (arith, h))
  taken_out zero d (x ∷ l) h = Perm.rfl
  taken_out (suc i) d (x ∷ l) h =
      Perm.trans (Perm.swap x (get_or l i d) (remove_at fl i l))
        (Perm.cons x (taken_out i d l (omega (arith, h))))

  length-remove_at :
      (i : ℕ) (l : List (Hit F)) → i < length l → suc (length (remove_at fl i l)) ≡ length l
  unfolding remove_at
  length-remove_at i [] h = absurd (omega (arith, h))
  length-remove_at zero (x ∷ l) h = refl
  length-remove_at (suc i) (x ∷ l) h = omega (arith, length-remove_at i l (omega (arith, h)))

  diversify_loop-perm :
      (fuel : ℕ) (decay : F) (taken : Taken fl) (hits : List (Hit F))
      → length hits ≤ fuel
      → Perm (diversify_loop fl fuel decay taken hits) hits
  unfolding diversify_loop
  diversify_loop-perm zero decay taken [] h = Perm.rfl
  diversify_loop-perm zero decay taken (x ∷ hits) h = absurd (omega (arith, h))
  diversify_loop-perm (suc fuel) decay taken [] h = Perm.rfl
  diversify_loop-perm (suc fuel) decay taken (x ∷ hits) h =
      let start = penalised fl decay x taken in
      let best = best_place fl decay taken hits 1 0 start in
      let bound = best_place-lt decay taken hits 1 0 start (omega arith) in
      let chosen = get_or (x ∷ hits) best x in
      let rest = remove_at fl best (x ∷ hits) in
      let inside : best < length (x ∷ hits) = omega (arith, bound) in
      let shorter = length-remove_at best (x ∷ hits) inside in
      Perm.trans
        (Perm.cons chosen (
          diversify_loop-perm fuel decay (take_one fl chosen.repo taken) rest
            (omega (arith, shorter, h))))
        (taken_out best x (x ∷ hits) inside)

  -- The rearrangement by repository ends with its fuel and drops no hit and adds none.
  pub diversify_by_repo-perm :
      (hits : List (Hit F)) (decay : F) → Perm (diversify_by_repo fl hits decay) hits
  unfolding diversify_by_repo
  diversify_by_repo-perm hits decay =
      elim (Bool-cases (fl.le decay fl.zero || fl.le fl.one decay || ltb (length hits) 2)) [
        | inl t ↦ rw (diversify_by_repo, t) Perm.rfl
        | inr f ↦
            rw (diversify_by_repo, f)
              (diversify_loop-perm (length hits) decay (none_taken fl) hits (omega arith))
      ]

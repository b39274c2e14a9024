-- ===== src/Prelude/Sorting.antt =====
-- `sort.SliceStable`: the stable sort by a strict comparison, as an insertion sort, and what a caller
-- may rely on.
use mathlib.Core.Path.{◌≡◌, refl, ap, ◌∙◌}
use mathlib.Core.Logic.{inl, inr}
use mathlib.Core.Bool.{Bool, true, false, Bool-set}
use mathlib.Core.List.{
  List, [], ◌∷◌, Perm, Pairwise, Pairwise-cons, Mem, Pairwise-singleton, forall_mem-cons,
}
use mathlib.Core.List.Perm
use native.Mathlib.Omega.{arith}
use rongo.Prelude.Tests.{if◌then◌else◌, Bool-cases}
use rongo.Prelude.Lists.{filter}

module _ {ℓ} {A : Type ℓ} (less : A → A → Bool) where
  unfoldable pub insert : A → List A → List A
  insert x [] = x ∷ []
  insert x (y ∷ ys) = let rest = insert x ys in if less y x then y ∷ rest else x ∷ y ∷ ys

  unfoldable pub sort_stable : List A → List A
  unfolding insert
  sort_stable [] = []
  sort_stable (x ∷ xs) = insert x (sort_stable xs)

  insert-perm : (x : A) (l : List A) → Perm (insert x l) (x ∷ l)
  unfolding insert
  insert-perm x [] = Perm.rfl
  insert-perm x (y ∷ ys) = elim (Bool-cases (less y x)) [
    | inl t ↦ rw (insert, t) (Perm.trans (Perm.cons y (insert-perm x ys)) (Perm.swap x y ys))
    | inr f ↦ rw (insert, f) Perm.rfl
  ]

  pub sort_stable-perm : (l : List A) → Perm (sort_stable l) l
  unfolding sort_stable
  sort_stable-perm [] = Perm.rfl
  sort_stable-perm (x ∷ xs) =
      Perm.trans (insert-perm x (sort_stable xs)) (Perm.cons x (sort_stable-perm xs))

  -- The later one never belongs before the earlier one.
  abbrev pub IsSorted : List A → Type ℓ
  IsSorted l = Pairwise (λ a b. less b a ≡ false) l

  -- A strict order up to ties, which are an equivalence.
  pub record IsOrder : Type ℓ where
    pub asym : (a b : A) → less a b ≡ true → less b a ≡ false
    pub ties : (a b c : A) → less b a ≡ false → less c b ≡ false → less c a ≡ false

  abbrev IsBelow : A → List A → Type ℓ
  IsBelow x l = (z : A) → Mem z l → less z x ≡ false

  IsBelow-cons : {x y : A} {l : List A} → less y x ≡ false → IsBelow x l → IsBelow x (y ∷ l)
  IsBelow-cons p h = (forall_mem-cons (λ z. Bool-set (less z _) false)).1 (p, h)

  IsBelow-perm : {x : A} {l r : List A} → Perm l r → IsBelow x r → IsBelow x l
  IsBelow-perm p h z m = h z ((Perm.mem_iff p).0 m)

  module _ (o : IsOrder) where
    insert-IsSorted : (x : A) (l : List A) → IsSorted l → IsSorted (insert x l)
    unfolding insert
    insert-IsSorted x [] h = Pairwise-singleton _ x
    insert-IsSorted x (y ∷ ys) h =
        let (first, rest) = Pairwise-cons.0 h in
        elim (Bool-cases (less y x)) [
          | inl t ↦
              rw (insert, t)
                (Pairwise.cons (IsBelow-perm (insert-perm x ys) (IsBelow-cons (o.asym y x t) first))
                  (insert-IsSorted x ys rest))
          | inr f ↦
              rw (insert, f) (Pairwise.cons (IsBelow-cons f (λ z m. o.ties x y z f (first z m))) h)
        ]

    pub sort_stable-IsSorted : (l : List A) → IsSorted (sort_stable l)
    unfolding sort_stable
    sort_stable-IsSorted [] = Pairwise.nil
    sort_stable-IsSorted (x ∷ xs) = insert-IsSorted x (sort_stable xs) (sort_stable-IsSorted xs)

  -- A class of elements that are ties of each other keeps its order.
  module _ (p : A → Bool) where
    abbrev IsTied : Type ℓ
    IsTied = (a b : A) → p a ≡ true → p b ≡ true → less a b ≡ false

    insert-filter : IsTied → (x : A) (l : List A) → filter p (insert x l) ≡ filter p (x ∷ l)
    unfolding insert
    insert-filter tied x [] = refl
    insert-filter tied x (y ∷ ys) = let ih = insert-filter tied x ys in ground (arith, ih, tied y x)

    -- The stable sort keeps the order of elements that are all ties of each other.
    pub sort_stable-filter : IsTied → (l : List A) → filter p (sort_stable l) ≡ filter p l
    unfolding sort_stable
    sort_stable-filter tied [] = refl
    sort_stable-filter tied (x ∷ xs) =
        insert-filter tied x (sort_stable xs)
        ∙ ap (λ t. if p x then x ∷ t else t) (sort_stable-filter tied xs)

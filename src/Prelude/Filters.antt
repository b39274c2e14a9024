-- ===== src/Prelude/Filters.antt =====
-- The filter of a list, under the other operations on lists.
use mathlib.Core.Path.{◌≡◌, refl, ap}
use mathlib.Core.Logic.{inl, inr}
use mathlib.Core.Bool.{Bool, true, false, ◌&&◌}
use mathlib.Core.List.{List, [], ◌∷◌, ◌++◌, map}
use rongo.Prelude.Tests.{if◌then◌else◌, Bool-cases}
use rongo.Prelude.Lists.{filter, All}

module _ {ℓ} {A : Type ℓ} where
  pub filter_keep :
      (p : A → Bool) (x : A) (xs : List A) → p x ≡ true → filter p (x ∷ xs) ≡ x ∷ filter p xs
  filter_keep p x xs t = rw t refl

  pub filter_drop :
      (p : A → Bool) (x : A) (xs : List A) → p x ≡ false → filter p (x ∷ xs) ≡ filter p xs
  filter_drop p x xs f = rw f refl

  pub filter-append :
      (p : A → Bool) (xs ys : List A) → filter p (xs ++ ys) ≡ filter p xs ++ filter p ys
  filter-append p [] ys = refl
  filter-append p (x ∷ xs) ys = elim (Bool-cases (p x)) [
    | inl t ↦ rw t (ap (λ l. x ∷ l) (filter-append p xs ys))
    | inr f ↦ rw f (filter-append p xs ys)
  ]

  pub filter_ext :
      (p q : A → Bool) (xs : List A) → All (λ x. p x ≡ q x) xs → filter p xs ≡ filter q xs
  filter_ext p q [] h = refl
  filter_ext p q (x ∷ xs) h = rw h.0 (ap (λ l. if q x then x ∷ l else l) (filter_ext p q xs h.1))

  pub filter_none : (p : A → Bool) (xs : List A) → All (λ x. p x ≡ false) xs → filter p xs ≡ []
  filter_none p [] h = refl
  filter_none p (x ∷ xs) h = rw h.0 (filter_none p xs h.1)

  pub filter_all : (p : A → Bool) (xs : List A) → All (λ x. p x ≡ true) xs → filter p xs ≡ xs
  filter_all p [] h = refl
  filter_all p (x ∷ xs) h = rw h.0 (ap (λ l. x ∷ l) (filter_all p xs h.1))

  pub filter-filter :
      (p q : A → Bool) (xs : List A) → filter p (filter q xs) ≡ filter (λ x. q x && p x) xs
  filter-filter p q [] = refl
  filter-filter p q (x ∷ xs) = elim (Bool-cases (q x)) [
    | inl t ↦ rw t (ap (λ l. if p x then x ∷ l else l) (filter-filter p q xs))
    | inr f ↦ rw f (filter-filter p q xs)
  ]

  pub All-filter {κ} :
      (P : A → Type κ) (q : A → Bool) (xs : List A) → All P xs → All P (filter q xs)
  All-filter P q [] h = tt
  All-filter P q (x ∷ xs) h = elim (Bool-cases (q x)) [
    | inl t ↦ rw t (h.0, All-filter P q xs h.1)
    | inr f ↦ rw f (All-filter P q xs h.1)
  ]

  pub All-map {κ ι} :
      {P : A → Type κ} {Q : A → Type ι} (xs : List A) → ((x : A) → P x → Q x) → All P xs → All Q xs
  All-map [] f h = tt
  All-map (x ∷ xs) f h = (f x h.0, All-map xs f h.1)

  pub All_of {κ} : {P : A → Type κ} (xs : List A) → ((x : A) → P x) → All P xs
  All_of [] f = tt
  All_of (x ∷ xs) f = (f x, All_of xs f)

module _ {ℓ κ} {A : Type ℓ} {B : Type κ} where
  pub filter-map :
      (q : B → Bool) (f : A → B) (xs : List A)
      → filter q (map f xs) ≡ map f (filter (λ x. q (f x)) xs)
  filter-map q f [] = refl
  filter-map q f (x ∷ xs) = elim (Bool-cases (q (f x))) [
    | inl t ↦ rw t (ap (λ l. f x ∷ l) (filter-map q f xs))
    | inr n ↦ rw n (filter-map q f xs)
  ]

-- ===== src/Ask/Renumber/Fenced.antt =====
-- A block of code that has not closed: what is written of it is written whatever text follows.
use rongo.Prelude.{
  ℕ, suc, ◌+◌, ◌-◌, ◌≤◌, ◌≡◌, refl, sym, ap, ◌∙◌, inl, inr, Bool, true, false, ◌&&◌, Option, none,
  some, [], ◌∷◌, ◌++◌, Text, length, length-append, take, drop, take-append-drop, ltb, ◌==◌,
  if◌then◌else◌, arith, Bool-cases, has_prefix,
}
use mathlib.Core.List.{append_assoc}
use mathlib.Core.Path.{ap₂}
use rongo.Ask.Markers.{Numbering}
use rongo.Ask.Renumber.{
  tick, fence, find_fence, cons_first, trailing_backticks, Turn, goes, stops, write_before,
  turn_in_fence,
}

-- The text up to the backticks that may begin the closing fence.
abbrev pub cut_of : Text → ℕ
cut_of s = length s - trailing_backticks s 2

abbrev prepend : Text → Option (Text × Text) → Option (Text × Text)
prepend p none = none
prepend p (some (before, after)) = some (p ++ before, after)

trailing-le : (s : Text) → trailing_backticks s 2 ≤ length s
unfolding trailing_backticks
trailing-le [] = omega arith
trailing-le (c ∷ s) = let ih = trailing-le s in ground (arith, ih)

-- Whether all of the text is held back.
abbrev all_held : ℕ → Text → Bool
all_held c s = c == tick && trailing_backticks s 2 == length s && ltb (trailing_backticks s 2) 2

cut_all : (c : ℕ) (s : Text) → all_held c s ≡ true → cut_of (c ∷ s) ≡ 0
unfolding trailing_backticks
cut_all c s h = ground (arith, h)

cut_later : (c : ℕ) (s : Text) → all_held c s ≡ false → cut_of (c ∷ s) ≡ suc (cut_of s)
unfolding trailing_backticks
cut_later c s h = let le = trailing-le s in ground (arith, h, le)

no_fence_here :
    (c : ℕ) (s t : Text)
    → all_held c s ≡ false
    → find_fence (c ∷ s) ≡ none
    → has_prefix (c ∷ (s ++ t)) fence ≡ false
unfolding find_fence trailing_backticks
no_fence_here c [] t h f = ground (arith, h)
no_fence_here c (d ∷ []) t h f = ground (arith, h)
no_fence_here c (d ∷ b ∷ s) t h f = ground (arith, f)

no_fence_later : (c : ℕ) (s : Text) → find_fence (c ∷ s) ≡ none → find_fence s ≡ none
unfolding find_fence
no_fence_later c s f = ground (arith, f)

trailing_free :
    (c : ℕ) (s : Text)
    → all_held c s ≡ false
    → trailing_backticks (c ∷ s) 2 ≡ trailing_backticks s 2
unfolding trailing_backticks
trailing_free c s h = rw (trailing_backticks, h) refl

long_free : (c : ℕ) (s : Text) → 2 ≤ length s → all_held c s ≡ false
long_free c s long = ground (arith, long)

short_free : (c d : ℕ) (t : Text) → all_held c (d ∷ []) ≡ false → all_held c (d ∷ t) ≡ false
unfolding trailing_backticks
short_free c d [] h = h
short_free c d (b ∷ t) h = long_free c (d ∷ b ∷ t) (omega arith)

free-append : (c : ℕ) (s t : Text) → all_held c s ≡ false → all_held c (s ++ t) ≡ false
unfolding trailing_backticks
free-append c [] t h = ground (arith, h)
free-append c (d ∷ []) t h = short_free c d t h
free-append c (d ∷ b ∷ s) t h = long_free c (d ∷ b ∷ (s ++ t)) (omega arith)

-- The text before the cut holds no fence, and none begins in it.
fence_free :
    (c : ℕ) (s : Text)
    → has_prefix (c ∷ s) fence ≡ false
    → find_fence (c ∷ s) ≡ cons_first c (find_fence s)
unfolding find_fence
fence_free c s h = rw (find_fence, h) refl

cons-prepend :
    (c : ℕ) (p : Text) (x : Option (Text × Text)) → cons_first c (prepend p x) ≡ prepend (c ∷ p) x
cons-prepend c p none = refl
cons-prepend c p (some (before, after)) = refl

prepend_nil : (x : Option (Text × Text)) → prepend [] x ≡ x
prepend_nil none = refl
prepend_nil (some (before, after)) = refl

pub find_fence-cut :
    (s t : Text)
    → find_fence s ≡ none
    → find_fence (s ++ t) ≡ prepend (take (cut_of s) s) (find_fence (drop (cut_of s) s ++ t))
unfolding trailing_backticks
find_fence-cut [] t f = sym (prepend_nil (find_fence t))
find_fence-cut (c ∷ s) t f =
    let split = λ (k : ℕ). prepend (take k (c ∷ s)) (find_fence (drop k (c ∷ s) ++ t)) in
    elim (Bool-cases (all_held c s)) [
      | inl h ↦ sym (prepend_nil (find_fence (c ∷ (s ++ t)))) ∙ ap split (sym (cut_all c s h))
      | inr h ↦
          fence_free c (s ++ t) (no_fence_here c s t h f)
          ∙ ap (cons_first c) (find_fence-cut s t (no_fence_later c s f))
          ∙ cons-prepend c (take (cut_of s) s) (find_fence (drop (cut_of s) s ++ t))
          ∙ ap split (sym (cut_later c s h))
    ]

trailing-cut :
    (s t : Text) → trailing_backticks (s ++ t) 2 ≡ trailing_backticks (drop (cut_of s) s ++ t) 2
unfolding trailing_backticks
trailing-cut [] t = refl
trailing-cut (c ∷ s) t = elim (Bool-cases (all_held c s)) [
  | inl h ↦ ap (λ k. trailing_backticks (drop k (c ∷ s) ++ t) 2) (sym (cut_all c s h))
  | inr h ↦
      trailing_free c (s ++ t) (free-append c s t h)
      ∙ trailing-cut s t
      ∙ ap (λ k. trailing_backticks (drop k (c ∷ s) ++ t) 2) (sym (cut_later c s h))
]

take_past : (p u : Text) (j : ℕ) → take (length p + j) (p ++ u) ≡ p ++ take j u
take_past [] u j = let e : length {A = ℕ} [] + j ≡ j = omega arith in ap (λ i. take i u) e
take_past (c ∷ p) u j =
    let e : length (c ∷ p) + j ≡ suc (length p + j) = omega arith in
    ap (λ i. take i (c ∷ (p ++ u))) e ∙ ap (λ l. c ∷ l) (take_past p u j)

drop_past : (p u : Text) (j : ℕ) → drop (length p + j) (p ++ u) ≡ drop j u
drop_past [] u j = let e : length {A = ℕ} [] + j ≡ j = omega arith in ap (λ i. drop i u) e
drop_past (c ∷ p) u j =
    let e : length (c ∷ p) + j ≡ suc (length p + j) = omega arith in
    ap (λ i. drop i (c ∷ (p ++ u))) e ∙ drop_past p u j

module _ (n : ℕ) (spell : Option (Text → Text)) (e : Bool) (r : Numbering) where
  abbrev pub fence_on : Text → ℕ → Option (Text × Text) → Turn
  fence_on s k x = elim x [
    | some (before, after) ↦ goes (before ++ fence) after (record r { in_fence = false })
    | none ↦ if e then stops s [] else (let cut = length s - k in stops (take cut s) (drop cut s))
  ]

  pub fence-form :
      (s : Text) → turn_in_fence n spell e r s ≡ fence_on s (trailing_backticks s 2) (find_fence s)
  unfolding turn_in_fence
  fence-form s = refl

  held_back :
      (b : Bool) (p u : Text) (k : ℕ)
      → k ≤ length u
      → (if b
          then stops (p ++ u) []
          else stops (take (length (p ++ u) - k) (p ++ u)) (drop (length (p ++ u) - k) (p ++ u)))
        ≡ write_before p
            (if b then stops u [] else stops (take (length u - k) u) (drop (length u - k) u))
  held_back true p u k h = refl
  held_back false p u k h =
      let past : length (p ++ u) - k ≡ length p + (length u - k) =
        omega (arith, length-append p u, h) in
      ap (λ i. stops (take i (p ++ u)) (drop i (p ++ u))) past
      ∙ ap₂ stops (take_past p u (length u - k)) (drop_past p u (length u - k))

  fence_on-prepend :
      (p u : Text) (k : ℕ) (x : Option (Text × Text))
      → k ≤ length u
      → fence_on (p ++ u) k (prepend p x) ≡ write_before p (fence_on u k x)
  fence_on-prepend p u k (some (before, after)) h =
      ap (λ l. goes l after (record r { in_fence = false })) (append_assoc p before fence)
  fence_on-prepend p u k none h = held_back e p u k h

  pub turn_in_fence-cut :
      (s t : Text)
      → find_fence s ≡ none
      → turn_in_fence n spell e r (s ++ t)
        ≡ write_before (take (cut_of s) s) (turn_in_fence n spell e r (drop (cut_of s) s ++ t))
  turn_in_fence-cut s t f =
      let p = take (cut_of s) s in
      let u = drop (cut_of s) s ++ t in
      let whole : s ++ t ≡ p ++ u =
        ap (λ l. l ++ t) (sym (take-append-drop (cut_of s) s))
        ∙ append_assoc p (drop (cut_of s) s) t in
      fence-form (s ++ t)
      ∙ ap₂ (fence_on (s ++ t)) (trailing-cut s t) (find_fence-cut s t f)
      ∙ ap (λ l. fence_on l (trailing_backticks u 2) (prepend p (find_fence u))) whole
      ∙ fence_on-prepend p u (trailing_backticks u 2) (find_fence u) (trailing-le u)
      ∙ ap (write_before p) (sym (fence-form u))

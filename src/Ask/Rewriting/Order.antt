-- ===== src/Ask/Rewriting/Order.antt =====
-- The numbers that the reader sees: the sources of the prompt, numbered without a gap in the order
-- of their first use.
use rongo.Prelude.{
  ℕ, itoa, zero, suc, ◌+◌, ◌-◌, ◌*◌, ◌≤◌, ◌<◌, ◌≡◌, refl, sym, ap, ◌∙◌, ◌⊎◌, inl, inr, Bool, true,
  false, Option, none, some, List, [], ◌∷◌, ◌++◌, Text, length, length-append, get_or, All,
  All-append, ltb, ltb→lt, ltb_false→le, ◌==◌, ==_iff, if◌then◌else◌, arith, Bool-cases,
}
use rongo.Prelude.Sorting.{sort_stable}
use mathlib.Core.Path.{subst}
use mathlib.Core.Option.{some-injective}
use rongo.Ask.Markers.{Numbering, dense_of, numbers, is_digit}
use rongo.Ask.Rewriting.{
  is_source, all_sources, mint, marker_run, renumber_one, rewrite_from, rewrite_chain, bracketed,
}

abbrev pub IsCited : ℕ → ℕ → Type 0
IsCited n k = (1 ≤ k) × (k ≤ n)

-- `dense` gives the reader's number of a source, its place in `order`, and no other has one.
pub record Numbers (n : ℕ) (dense : ℕ → Option ℕ) (order : List ℕ) : Type 0 where
  pub cited : All (IsCited n) order
  pub placed :
      (k d : ℕ) → dense k ≡ some d → (1 ≤ d) × (d ≤ length order) × (get_or order (d - 1) 0 ≡ k)
  pub known : (i : ℕ) → i < length order → dense (get_or order i 0) ≡ some (suc i)

abbrev pub IsNumbered : ℕ → Numbering → Type 0
IsNumbered n r = Numbers n r.dense r.order

get_or-front : (l : List ℕ) (x i : ℕ) → i < length l → get_or (l ++ x ∷ []) i 0 ≡ get_or l i 0
get_or-front [] x i h = absurd (omega (arith, h))
get_or-front (y ∷ l) x zero h = refl
get_or-front (y ∷ l) x (suc i) h = get_or-front l x i (omega (arith, h))

get_or-last : (l : List ℕ) (x : ℕ) → get_or (l ++ x ∷ []) (length l) 0 ≡ x
get_or-last [] x = refl
get_or-last (y ∷ l) x = get_or-last l x

module _ (n : ℕ) where
  abbrev minted : ℕ → Numbering → ℕ → Option ℕ
  minted k r x = if x == k then some (suc (length r.order)) else r.dense x

  minted-same :
      (r : Numbering) (k x : ℕ) → (x == k) ≡ true → minted k r x ≡ some (suc (length r.order))
  minted-same r k x t = ap (λ b. if b then some (suc (length r.order)) else r.dense x) t

  minted-other : (r : Numbering) (k x : ℕ) → (x == k) ≡ false → minted k r x ≡ r.dense x
  minted-other r k x f = ap (λ b. if b then some (suc (length r.order)) else r.dense x) f

  unseen :
      (r : Numbering) (k : ℕ)
      → r.dense k ≡ none
      → (i : ℕ) → r.dense (get_or r.order i 0) ≡ some (suc i)
      → (get_or r.order i 0 == k) ≡ false
  unseen r k new i at = elim (Bool-cases (get_or r.order i 0 == k)) [
    | inl t ↦
        let same = ap r.dense ((==_iff (get_or r.order i 0) k).0 t) in
        let clash : none ≡ some (suc i) = sym new ∙ sym same ∙ at in absurd cc
    | inr f ↦ f
  ]

  minted-placed :
      (r : Numbering) (k : ℕ)
      → IsNumbered n r
      → (x d : ℕ) → minted k r x ≡ some d
      → (1 ≤ d) × (d ≤ length (r.order ++ k ∷ [])) × (get_or (r.order ++ k ∷ []) (d - 1) 0 ≡ x)
  minted-placed r k h x d e =
      let size = length-append r.order (k ∷ []) in
      elim (Bool-cases (x == k)) [
        | inl t ↦
            let same : suc (length r.order) ≡ d =
              some-injective (suc (length r.order)) d (sym (minted-same r k x t) ∙ e) in
            let place : d - 1 ≡ length r.order = omega (arith, same) in
            (
              omega (arith, same),
              omega (arith, same, size),
              ap (λ i. get_or (r.order ++ k ∷ []) i 0) place
                  ∙ get_or-last r.order k
                  ∙ sym ((==_iff x k).0 t),
            )
        | inr f ↦
            let (low, high, at) = h.placed x d (sym (minted-other r k x f) ∙ e) in
            (
              low,
              omega (arith, high, size),
              get_or-front r.order k (d - 1) (omega (arith, low, high)) ∙ at,
            )
      ]

  minted-known :
      (r : Numbering) (k : ℕ)
      → IsNumbered n r
      → r.dense k ≡ none
      → (i : ℕ) → i < length (r.order ++ k ∷ [])
      → minted k r (get_or (r.order ++ k ∷ []) i 0) ≡ some (suc i)
  minted-known r k h new i low =
      let size = length-append r.order (k ∷ []) in
      elim (Bool-cases (ltb i (length r.order))) [
        | inl t ↦
            let inside = ltb→lt i (length r.order) t in
            let at = h.known i inside in
            ap (minted k r) (get_or-front r.order k i inside)
            ∙ minted-other r k (get_or r.order i 0) (unseen r k new i at)
            ∙ at
        | inr f ↦
            let last : i ≡ length r.order =
              omega (arith, low, size, ltb_false→le i (length r.order) f) in
            ap (λ j. minted k r (get_or (r.order ++ k ∷ []) j 0)) last
            ∙ ap (minted k r) (get_or-last r.order k)
            ∙ minted-same r k k ((==_iff k k).1 refl)
            ∙ ap (λ j. some (suc j)) (sym last)
      ]

  minted-Numbers :
      (r : Numbering) (k : ℕ)
      → IsCited n k
      → IsNumbered n r
      → r.dense k ≡ none
      → Numbers n (minted k r) (r.order ++ k ∷ [])
  minted-Numbers r k c h new = record {
    cited = All-append (IsCited n) r.order (k ∷ []) h.cited (c, tt);
    placed = minted-placed r k h;
    known = minted-known r k h new;
  }

  option-cases : (x : Option ℕ) → (x ≡ none) ⊎ ((d : ℕ) × x ≡ some d)
  option-cases none = inl refl
  option-cases (some d) = inr (d, refl)

  abbrev looked_up : ℕ → Numbering → Option ℕ → ℕ × Numbering
  looked_up k r x = elim x [
    | some d ↦ (d, r)
    | none ↦
        let d = suc (length r.order) in
        (d, record r { order = r.order ++ k ∷ []; dense = minted k r })
  ]

  dense_of-IsNumbered :
      (k : ℕ) (r : Numbering) → IsCited n k → IsNumbered n r → IsNumbered n (dense_of k r).1
  unfolding dense_of
  dense_of-IsNumbered k r c h = elim (option-cases (r.dense k)) [
    | inl new ↦ subst (λ x. IsNumbered n (looked_up k r x).1) (sym new) (minted-Numbers r k c h new)
    | inr (d, old) ↦ subst (λ x. IsNumbered n (looked_up k r x).1) (sym old) h
  ]

  source-IsCited : (k : ℕ) → is_source n k ≡ true → IsCited n k
  source-IsCited k h = ground (arith, h)

  mint-IsNumbered :
      (ks out : List ℕ) (r : Numbering)
      → all_sources n ks ≡ true
      → IsNumbered n r
      → IsNumbered n (mint n ks out r).1
  unfolding mint all_sources
  mint-IsNumbered [] out r a h = h
  mint-IsNumbered (k ∷ ks) out r a h =
      let first : is_source n k ≡ true = ground (arith, a) in
      let rest : all_sources n ks ≡ true = ground (arith, a) in
      mint-IsNumbered ks _ (dense_of k r).1 rest
        (dense_of-IsNumbered k r (source-IsCited k first) h)

  if-IsNumbered :
      (b : Bool) (x y : Text × Numbering)
      → (b ≡ true → IsNumbered n x.1)
      → (b ≡ false → IsNumbered n y.1)
      → IsNumbered n (if b then x else y).1
  if-IsNumbered true x y hx hy = hx refl
  if-IsNumbered false x y hx hy = hy refl

  renumber_one-IsNumbered :
      (k : ℕ) (shown : Text) (r : Numbering)
      → IsNumbered n r
      → IsNumbered n (renumber_one n k shown r).1
  unfolding renumber_one
  renumber_one-IsNumbered k shown r h =
      if-IsNumbered (is_source n k) (itoa (dense_of k r).0, (dense_of k r).1) (shown, r)
        (λ t. dense_of-IsNumbered k r (source-IsCited k t) h) (λ f. h)

  rewrite_from-IsNumbered :
      (shown : Text) (acc : ℕ) (s : Text) (r : Numbering)
      → IsNumbered n r
      → IsNumbered n (rewrite_from n shown acc s r).1
  unfolding rewrite_from
  rewrite_from-IsNumbered [] acc [] r h = h
  rewrite_from-IsNumbered (x ∷ shown) acc [] r h = renumber_one-IsNumbered acc (x ∷ shown) r h
  rewrite_from-IsNumbered [] acc (c ∷ s) r h =
      if-IsNumbered (is_digit c) (rewrite_from n (c ∷ []) (c - 48) s r) _
        (λ t. rewrite_from-IsNumbered (c ∷ []) (c - 48) s r h)
        (λ f. rewrite_from-IsNumbered [] 0 s r h)
  rewrite_from-IsNumbered (x ∷ shown) acc (c ∷ s) r h =
      if-IsNumbered (is_digit c) (rewrite_from n (x ∷ shown ++ c ∷ []) (acc * 10 + (c - 48)) s r) _
        (λ t. rewrite_from-IsNumbered (x ∷ shown ++ c ∷ []) (acc * 10 + (c - 48)) s r h)
        (λ f.
          rewrite_from-IsNumbered [] 0 s (renumber_one n acc (x ∷ shown) r).1
            (renumber_one-IsNumbered acc (x ∷ shown) r h))

  abbrev chosen : Text → Numbering → Bool → Text × Numbering
  chosen s r b =
      let found : Option (List ℕ × Numbering) =
        if b
        then some (sort_stable ltb (mint n (numbers s) [] r).0, (mint n (numbers s) [] r).1)
        else none in
      elim found [ none ↦ rewrite_from n [] 0 s r | some (ds, r') ↦ (bracketed n ds, r') ]

  chosen-IsNumbered :
      (s : Text) (r : Numbering) (b : Bool)
      → all_sources n (numbers s) ≡ b
      → IsNumbered n r
      → IsNumbered n (chosen s r b).1
  chosen-IsNumbered s r true e h = mint-IsNumbered (numbers s) [] r e h
  chosen-IsNumbered s r false e h = rewrite_from-IsNumbered [] 0 s r h

  -- A run of markers keeps the numbering.
  pub rewrite_chain-IsNumbered :
      (s : Text) (r : Numbering) → IsNumbered n r → IsNumbered n (rewrite_chain n s r).1
  unfolding rewrite_chain marker_run
  rewrite_chain-IsNumbered s r h = chosen-IsNumbered s r (all_sources n (numbers s)) refl h

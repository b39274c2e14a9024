-- ===== src/Ask/Renumber/Follow.antt =====
-- A round of the loop on a text, and the round when more text follows.
use rongo.Prelude.{
  ℕ, ◌≡◌, refl, sym, ap, ◌∙◌, ◌⊎◌, inl, inr, Bool, true, false, not, ◌||◌, Option, none, some, [],
  ◌∷◌, ◌++◌, Text, take, drop, ◌==◌, if◌then◌else◌, arith, Bool-cases,
}
use mathlib.Core.List.{append_assoc, append-nil}
use mathlib.Core.Path.{subst, ap₂}
use rongo.Ask.Markers.{open_bracket, Numbering, all_of}
use rongo.Ask.Renumber.{
  tick, find_fence, split_prose, Turn, goes, stops, write_before, turn_in_fence, turn_last,
  turn_special, turn, trailing_backticks,
}
use rongo.Ask.Renumber.Grown.{Grown, find_fence-Grown}
use rongo.Ask.Renumber.Extend.{Extends, turn_special-Extends}
use rongo.Ask.Renumber.Fenced.{cut_of, turn_in_fence-cut, fence_on, fence-form}

-- The whole of what the loop returns, behind what is written already.
abbrev pub written : Text → Text × Text × Numbering → Text × Text × Numbering
written p (out, held, r) = (p ++ out, held, r)

-- `turn`'s round on a text and on a longer one.
abbrev pub Follows : Text → (Text → Turn) → Turn → Turn → Type 0
Follows t again (goes out rest r) y = y ≡ goes out (rest ++ t) r
Follows t again (stops out held) y = y ≡ write_before out (again (held ++ t))

abbrev is_special : ℕ → Bool
is_special c = c == tick || c == open_bracket

-- Prose is written whatever follows it.
split_prose-plain :
    (p u : Text)
    → all_of (λ c. not (is_special c)) p ≡ true
    → split_prose (p ++ u) ≡ (p ++ (split_prose u).0, (split_prose u).1)
unfolding split_prose all_of
split_prose-plain [] u h = refl
split_prose-plain (c ∷ p) u h = let ih = split_prose-plain p u in ground (arith, h, ih)

split_prose-special : (c : ℕ) (s : Text) → is_special c ≡ true → split_prose (c ∷ s) ≡ ([], c ∷ s)
unfolding split_prose
split_prose-special c s h = ground (arith, h)

split_prose-other :
    (c : ℕ) (s : Text)
    → is_special c ≡ false
    → split_prose (c ∷ s) ≡ (c ∷ (split_prose s).0, (split_prose s).1)
unfolding split_prose
split_prose-other c s h = ground (arith, h)

-- How a text is split: prose, and a backtick or a bracket behind it.
record Split (s before after : Text) : Type 0 where
  whole : s ≡ before ++ after
  plain : all_of (λ c. not (is_special c)) before ≡ true
  rest : (after ≡ []) ⊎ ((c : ℕ) × (later : Text) × (after ≡ c ∷ later) × (is_special c ≡ true))

split_prose-Split : (s : Text) → Split s (split_prose s).0 (split_prose s).1
unfolding split_prose all_of
split_prose-Split [] = record { whole = refl; plain = refl; rest = inl refl }
split_prose-Split (c ∷ s) =
    let ih = split_prose-Split s in
    elim (Bool-cases (is_special c)) [
      | inl h ↦
          subst (λ x. Split (c ∷ s) x.0 x.1) (sym (split_prose-special c s h))
            (record { whole = refl; plain = refl; rest = inr (c, s, refl, h) })
      | inr h ↦
          let plain = ih.plain in
          subst (λ x. Split (c ∷ s) x.0 x.1) (sym (split_prose-other c s h))
            (record {
              whole = ap (λ l. c ∷ l) ih.whole;
              plain = ground (arith, h, plain);
              rest = ih.rest;
            })
    ]

module _ (n : ℕ) (e : Bool) where
  abbrev pub round : Numbering → Text → Turn
  round = turn n none e

  write-nil : (x : Turn) → write_before [] x ≡ x
  write-nil (goes out rest r) = refl
  write-nil (stops out held) = refl

  write-write :
      (p q : Text) (x : Turn) → write_before (p ++ q) x ≡ write_before p (write_before q x)
  write-write p q (goes out rest r) = ap (λ l. goes l rest r) (append_assoc p q out)
  write-write p q (stops out held) = ap (λ l. stops l held) (append_assoc p q out)

  -- The round outside of a block of code, on a text that is split.
  abbrev pub outside : Numbering → Text → Text → Turn
  outside r before after = elim after [
    | [] ↦ turn_last n none e before
    | c ∷ later ↦ write_before before (turn_special n none e r (c ∷ later))
  ]

  choice : Numbering → Text → Bool → Turn
  choice r s b =
      if b then turn_in_fence n none e r s else outside r (split_prose s).0 (split_prose s).1

  pub turn-outside :
      (r : Numbering) (s : Text)
      → r.in_fence ≡ false
      → round r s ≡ outside r (split_prose s).0 (split_prose s).1
  unfolding turn choice
  turn-outside r s f = ap (choice r s) f

  pub turn-inside :
      (r : Numbering) (s : Text) → r.in_fence ≡ true → round r s ≡ turn_in_fence n none e r s
  unfolding turn choice
  turn-inside r s f = ap (choice r s) f

  outside-plain :
      (r : Numbering) (p before after : Text)
      → outside r (p ++ before) after ≡ write_before p (outside r before after)
  unfolding turn_last
  outside-plain r p before [] = refl
  outside-plain r p before (c ∷ later) = write-write p before (turn_special n none e r (c ∷ later))

  turn-plain :
      (r : Numbering) (p u : Text)
      → r.in_fence ≡ false
      → all_of (λ c. not (is_special c)) p ≡ true
      → round r (p ++ u) ≡ write_before p (round r u)
  turn-plain r p u f plain =
      turn-outside r (p ++ u) f
      ∙ ap (λ x. outside r x.0 x.1) (split_prose-plain p u plain)
      ∙ outside-plain r p (split_prose u).0 (split_prose u).1
      ∙ ap (write_before p) (sym (turn-outside r u f))

  turn-special :
      (r : Numbering) (c : ℕ) (s : Text)
      → r.in_fence ≡ false
      → is_special c ≡ true
      → round r (c ∷ s) ≡ turn_special n none e r (c ∷ s)
  turn-special r c s f h =
      turn-outside r (c ∷ s) f
      ∙ ap (λ x. outside r x.0 x.1) (split_prose-special c s h)
      ∙ write-nil (turn_special n none e r (c ∷ s))

module _ (n : ℕ) (e : Bool) (t : Text) (r : Numbering) where
  abbrev pub again : Text → Turn
  again = turn n none e r

  fence_on-Follows :
      (s : Text) (x : Option (Text × Text))
      → r.in_fence ≡ true
      → find_fence s ≡ x
      → Follows t again
          (fence_on n none false r s (trailing_backticks s 2) x)
          (turn_in_fence n none e r (s ++ t))
  fence_on-Follows s (some (before, after)) f found =
      let grown = subst (λ z. Grown t z (find_fence (s ++ t))) found (find_fence-Grown s t) in
      fence-form n none e r (s ++ t)
      ∙ ap (fence_on n none e r (s ++ t) (trailing_backticks (s ++ t) 2)) grown
  fence_on-Follows s none f found =
      turn_in_fence-cut n none e r s t found
      ∙ ap (write_before (take (cut_of s) s)) (sym (turn-inside n e r (drop (cut_of s) s ++ t) f))

  -- The rounds in a block of code.
  inside-Follows :
      (s : Text) → r.in_fence ≡ true → Follows t again (turn n none false r s) (again (s ++ t))
  inside-Follows s f =
      subst (λ x. Follows t again x (again (s ++ t)))
        (sym (turn-inside n false r s f ∙ fence-form n none false r s))
        (subst (Follows t again (fence_on n none false r s (trailing_backticks s 2) (find_fence s)))
          (sym (turn-inside n e r (s ++ t) f)) (fence_on-Follows s (find_fence s) f refl))

  before-Follows :
      (before s : Text) (x y : Turn)
      → Extends s t x y
      → y ≡ again (s ++ t)
      → Follows t again (write_before before x) (write_before before y)
  before-Follows before s (goes out rest q) y h same = ap (write_before before) h
  before-Follows before s (stops out held) y (nothing, all) same =
      ap₂ write_before (sym (ap (λ l. before ++ l) nothing ∙ append-nil before))
        (same ∙ ap (λ l. again (l ++ t)) (sym all))

  parts-Follows :
      (s before after : Text)
      → r.in_fence ≡ false
      → Split s before after
      → Follows t again (outside n false r before after) (again (s ++ t))
  unfolding turn_last
  parts-Follows s before after f h = elim h.rest [
    | inl nothing ↦
        let e₁ : s ++ t ≡ before ++ t =
          ap (λ l. l ++ t) (h.whole ∙ ap (λ l. before ++ l) nothing ∙ append-nil before) in
        subst (λ z. Follows t again (outside n false r before z) (again (s ++ t))) (sym nothing)
          (ap again e₁ ∙ turn-plain n e r before t f h.plain)
    | inr (c, later, is, special) ↦
        let all = c ∷ (later ++ t) in
        let e₂ : s ++ t ≡ before ++ all =
          ap (λ l. l ++ t) (h.whole ∙ ap (λ l. before ++ l) is)
          ∙ append_assoc before (c ∷ later) t in
        let there = turn-special n e r c (later ++ t) f special in
        let moved : again (s ++ t) ≡ write_before before (turn_special n none e r all) =
          ap again e₂ ∙ turn-plain n e r before all f h.plain ∙ ap (write_before before) there in
        subst (λ z. Follows t again (outside n false r before z) (again (s ++ t))) (sym is)
          (subst (Follows t again (write_before before (turn_special n none false r (c ∷ later))))
            (sym moved)
            (before-Follows before (c ∷ later) _ _
              (turn_special-Extends n none e r c later t special) (sym there)))
  ]

  pub turn-Follows : (s : Text) → Follows t again (turn n none false r s) (again (s ++ t))
  turn-Follows s = elim (Bool-cases r.in_fence) [
    | inl f ↦ inside-Follows s f
    | inr f ↦
        subst (λ x. Follows t again x (again (s ++ t))) (sym (turn-outside n false r s f))
          (parts-Follows s (split_prose s).0 (split_prose s).1 f (split_prose-Split s))
  ]

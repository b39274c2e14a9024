-- ===== src/Ask/Renumber/Extend.antt =====
-- A round that goes on before the text has ended goes on in the same way when more text follows.
use rongo.Prelude.{
  ℕ, ◌≤◌, ◌≡◌, refl, sym, ap, ◌∙◌, ◌⊎◌, inl, inr, ==_iff, length-append, Bool, true, false, not,
  ◌&&◌, ◌||◌, Option, none, some, [], ◌∷◌, ◌++◌, Text, length, take, drop, ltb, ◌==◌, if◌then◌else◌,
  arith, Bool-cases, has_prefix,
}
use mathlib.Core.Path.{subst, ap₂}
use mathlib.Core.Bool.{true≢false}
use rongo.Ask.Markers.{open_bracket, chain_at_start, chain_more, marker_prefix, Numbering, all_of}
use rongo.Ask.Rewriting.{rewrite_chain}
use rongo.Ask.Renumber.{
  tick, fence, find_fence, split_line, Turn, goes, stops, turn_header, turn_span, turn_marker,
  turn_special, is_ticks,
}
use rongo.Ask.Renumber.Grown.{
  Grown, behind_header-Grown, find_close-Grown, LineGrown, split_line-LineGrown, drop_append,
  take_append,
}
use rongo.Ask.Renumber.Chains.{
  chain_settled, bracket_settled, chain_more-append, marker_prefix-append, all_of-append,
}
use rongo.Ask.Renumber.Progress.{Within, chain_at_start-Within}

-- `x` is the round on `s`, `y` the round on `s ++ t`. What is held back is all of `s`.
abbrev pub Extends : Text → Text → Turn → Turn → Type 0
Extends s t (goes out rest r) y = y ≡ goes out (rest ++ t) r
Extends s t (stops out rest) y = (out ≡ []) × (rest ≡ s)

-- Two conditionals on tests that agree.
extend-if :
    (s t : Text) (b b' : Bool) (x x' y y' : Turn)
    → b' ≡ b
    → (b ≡ true → Extends s t x y)
    → (b ≡ false → Extends s t x' y')
    → Extends s t (if b then x else x') (if b' then y else y')
extend-if s t true true x x' y y' e h h' = h refl
extend-if s t true false x x' y y' e h h' = cc
extend-if s t false true x x' y y' e h h' = cc
extend-if s t false false x x' y y' e h h' = h' refl

tick_or_bracket :
    (c : ℕ) → (c == tick || c == open_bracket) ≡ true → (c ≡ tick) ⊎ (c ≡ open_bracket)
tick_or_bracket c h = elim (Bool-cases (c == tick)) [
  | inl t ↦ inl ((==_iff c tick).0 t)
  | inr f ↦ inr ((==_iff c open_bracket).0 (rw f at h))
]

module _ (n : ℕ) (spell : Option (Text → Text)) (e : Bool) (r : Numbering) where
  abbrev header_on : Bool → Text → Text → Option (Text × Text) → Option Text → Turn
  header_on end s line found after = elim found [
    | some _ ↦ goes fence (drop 3 s) (record r { in_fence = true })
    | none ↦ elim after [
      | some later ↦ goes (line ++ 10 ∷ []) later (record r { in_fence = true })
      | none ↦ if end then goes line [] (record r { in_fence = true }) else stops [] s
    ]
  ]

  header-form :
      (end : Bool) (s : Text)
      → turn_header n spell end r s
        ≡ header_on end s (split_line s).0 (find_fence (drop 3 (split_line s).0)) (split_line s).1
  unfolding turn_header
  header-form end s = refl

  -- The header line grows, and a second fence that is on it stays on it.
  open_line-Extends :
      (s t line more : Text) (after : Option Text) (x y : Option (Text × Text))
      → 3 ≤ length s
      → Grown more x y
      → Extends s t (header_on false s line x none) (header_on e (s ++ t) (line ++ more) y after)
  open_line-Extends s t line more after (some x) y h g =
      ap (λ z. header_on e (s ++ t) (line ++ more) z after) g
      ∙ ap (λ u. goes fence u (record r { in_fence = true })) (drop_append 3 s t h)
  open_line-Extends s t line more after none y h g = (refl, refl)

  whole_line-Extends :
      (s t line after : Text) (x : Option (Text × Text))
      → 3 ≤ length s
      → Extends s t
          (header_on false s line x (some after))
          (header_on e (s ++ t) line x (some (after ++ t)))
  whole_line-Extends s t line after (some x) h =
      ap (λ u. goes fence u (record r { in_fence = true })) (drop_append 3 s t h)
  whole_line-Extends s t line after none h = refl

  header-Extends :
      (s t : Text) (x y : Text × Option Text)
      → 3 ≤ length s
      → LineGrown t x y
      → Extends s t
          (header_on false s x.0 (find_fence (drop 3 x.0)) x.1)
          (header_on e (s ++ t) y.0 (find_fence (drop 3 y.0)) y.1)
  header-Extends s t (line, some after) y h g =
      subst
        (λ z.
          Extends s t (header_on false s line (find_fence (drop 3 line)) (some after))
            (header_on e (s ++ t) z.0 (find_fence (drop 3 z.0)) z.1))
        (sym g) (whole_line-Extends s t line after (find_fence (drop 3 line)) h)
  header-Extends s t (line, none) (line', after') h (more, g) =
      subst
        (λ z.
          Extends s t (header_on false s line (find_fence (drop 3 line)) none)
            (header_on e (s ++ t) z (find_fence (drop 3 z)) after'))
        (sym g) (open_line-Extends s t line more after' _ _ h (behind_header-Grown line more))

  turn_header-Extends :
      (s t : Text)
      → 3 ≤ length s
      → Extends s t (turn_header n spell false r s) (turn_header n spell e r (s ++ t))
  unfolding turn_header
  turn_header-Extends s t h =
      header-Extends s t (split_line s) (split_line (s ++ t)) h (split_line-LineGrown s t)

  turn_span-Extends :
      (s t : Text)
      → Extends (tick ∷ s) t (turn_span n spell false r s) (turn_span n spell e r (s ++ t))
  unfolding turn_span
  turn_span-Extends s t = let h = find_close-Grown s t in ground (arith, h)

  abbrev pub marker_on : Bool → Text → Option ℕ → Turn
  marker_on end s (some k) =
      if not end && chain_more (drop k (open_bracket ∷ s))
      then stops [] (open_bracket ∷ s)
      else (let (out, r') = rewrite_chain n (take k (open_bracket ∷ s)) r in
          goes out (drop k (open_bracket ∷ s)) r')
  marker_on end s none =
      if not end && marker_prefix (open_bracket ∷ s)
      then stops [] (open_bracket ∷ s)
      else goes (open_bracket ∷ []) s r

  pub marker-form :
      (end : Bool) (s : Text)
      → turn_marker n spell end r s ≡ marker_on end s (chain_at_start (open_bracket ∷ s))
  unfolding turn_marker
  marker-form end s = refl

  hold_or_go :
      (s t : Text) (b : Bool) (x y : Turn)
      → (b ≡ false → Extends s t x y)
      → Extends s t (if b then stops [] s else x) y
  hold_or_go s t true x y f = (refl, refl)
  hold_or_go s t false x y f = f refl

  goes_on : (b : Bool) (x y : Turn) → b ≡ false → (if not e && b then x else y) ≡ y
  goes_on b x y h = ground (arith, h)

  marker_on-Extends :
      (s t : Text) (x : Option ℕ)
      → chain_at_start (open_bracket ∷ s) ≡ x
      → Extends (open_bracket ∷ s) t (marker_on false s x) (turn_marker n spell e r (s ++ t))
  marker_on-Extends s t none none_yet =
      hold_or_go (open_bracket ∷ s) t (marker_prefix (open_bracket ∷ s)) _ _ λ shut.
        marker-form e (s ++ t)
        ∙ ap (marker_on e (s ++ t)) (bracket_settled s t none_yet shut)
        ∙ goes_on _ _ _ (marker_prefix-append s t shut)
  marker_on-Extends s t (some k) found =
      let all = open_bracket ∷ s in
      let within : k ≤ length all =
        (subst (Within 1 (length all)) found (chain_at_start-Within all)).1 in
      hold_or_go all t (chain_more (drop k all)) _ _ λ closed.
        marker-form e (s ++ t)
        ∙ ap (marker_on e (s ++ t)) (chain_settled s t k found closed)
        ∙ goes_on _ _ _
            (ap chain_more (drop_append k all t within) ∙ chain_more-append (drop k all) t closed)
        ∙ ap₂ (λ u v. goes (rewrite_chain n u r).0 v (rewrite_chain n u r).1)
            (take_append k all t within) (drop_append k all t within)

  turn_marker-Extends :
      (s t : Text)
      → Extends
          (open_bracket ∷ s)
          t
          (turn_marker n spell false r s)
          (turn_marker n spell e r (s ++ t))
  turn_marker-Extends s t =
      subst (λ x. Extends (open_bracket ∷ s) t x (turn_marker n spell e r (s ++ t)))
        (sym (marker-form false s)) (marker_on-Extends s t (chain_at_start (open_bracket ∷ s)) refl)

  abbrev held : Text → Bool
  held s = ltb (length (tick ∷ s)) 3 && is_ticks n spell (tick ∷ s)

  held-append : (s t : Text) → held s ≡ false → held (s ++ t) ≡ false
  unfolding is_ticks
  held-append s t free =
      let more = all_of-append (λ c. c == tick) s t in
      let long = length-append s t in ground (arith, free, more, long)

  -- Text that is not held back begins with a fence or does not, whatever follows.
  fence-append :
      (s t : Text)
      → held s ≡ false
      → has_prefix (tick ∷ (s ++ t)) fence ≡ has_prefix (tick ∷ s) fence
  unfolding is_ticks all_of
  fence-append [] t free = absurd (true≢false free)
  fence-append (c ∷ []) t free = ground (arith, free)
  fence-append (c ∷ d ∷ s) t free = refl

  fence-length : (s : Text) → has_prefix (tick ∷ s) fence ≡ true → 3 ≤ length (tick ∷ s)
  fence-length [] h = cc
  fence-length (c ∷ []) h = absurd (true≢false (sym h ∙ ground arith))
  fence-length (c ∷ d ∷ s) h = omega arith

  abbrev ticked : Bool → Text → Turn
  ticked end s =
      if has_prefix (tick ∷ s) fence
      then turn_header n spell end r (tick ∷ s)
      else turn_span n spell end r s

  ticked-Extends :
      (s t : Text) → held s ≡ false → Extends (tick ∷ s) t (ticked false s) (ticked e (s ++ t))
  ticked-Extends s t free =
      extend-if (tick ∷ s) t (has_prefix (tick ∷ s) fence) (has_prefix (tick ∷ (s ++ t)) fence) _ _
        _ _ (fence-append s t free) (λ h. turn_header-Extends (tick ∷ s) t (fence-length s h))
        (λ h. turn_span-Extends s t)

  at_tick :
      (s t : Text)
      → Extends
          (tick ∷ s)
          t
          (turn_special n spell false r (tick ∷ s))
          (turn_special n spell e r (tick ∷ (s ++ t)))
  unfolding turn_special
  at_tick s t = hold_or_go (tick ∷ s) t (held s) (ticked false s) _ λ free.
      subst (λ y. Extends (tick ∷ s) t (ticked false s) y)
        (sym (goes_on (held (s ++ t)) _ _ (held-append s t free))) (ticked-Extends s t free)

  at_bracket :
      (s t : Text)
      → Extends
          (open_bracket ∷ s)
          t
          (turn_special n spell false r (open_bracket ∷ s))
          (turn_special n spell e r (open_bracket ∷ (s ++ t)))
  unfolding turn_special
  at_bracket s t = turn_marker-Extends s t

  -- What begins with a backtick or a bracket, before the end of the answer.
  pub turn_special-Extends :
      (c : ℕ) (s t : Text)
      → (c == tick || c == open_bracket) ≡ true
      → Extends
          (c ∷ s)
          t
          (turn_special n spell false r (c ∷ s))
          (turn_special n spell e r (c ∷ (s ++ t)))
  turn_special-Extends c s t h = elim (tick_or_bracket c h) [
    | inl i ↦
        subst
          (λ d.
            Extends (d ∷ s) t (turn_special n spell false r (d ∷ s))
              (turn_special n spell e r (d ∷ (s ++ t))))
          (sym i) (at_tick s t)
    | inr i ↦
        subst
          (λ d.
            Extends (d ∷ s) t (turn_special n spell false r (d ∷ s))
              (turn_special n spell e r (d ∷ (s ++ t))))
          (sym i) (at_bracket s t)
  ]

-- ===== src/Ask/Renumber/Ends.antt =====
-- At the end of an answer nothing is held back.
use rongo.Prelude.{
  ℕ, zero, suc, ◌≤◌, ◌<◌, ◌≡◌, refl, Bool, true, false, Option, [], ◌∷◌, Text, length, ◌==◌, arith,
  if◌then◌else◌, has_prefix,
}
use rongo.Ask.Markers.{Numbering}
use rongo.Ask.Renumber.{
  tick, fence, split_prose, Turn, goes, stops, write_before, turn_in_fence, turn_last, turn_header,
  turn_span, turn_marker, turn_special, turn, prose, rounds, decide,
}
use rongo.Ask.Renumber.Progress.{Reads, turn-Reads, carry_on}

module _ (n : ℕ) (spell : Option (Text → Text)) where
  abbrev Ends : Turn → Type 0
  Ends (goes out rest r) = Unit
  Ends (stops out held) = held ≡ []

  Ends-if : (b : Bool) (x y : Turn) → Ends x → Ends y → Ends (if b then x else y)
  Ends-if true x y hx hy = hx
  Ends-if false x y hx hy = hy

  Ends-write : (p : Text) (x : Turn) → Ends x → Ends (write_before p x)
  Ends-write p (goes out rest r) h = h
  Ends-write p (stops out held) h = h

  module _ (r : Numbering) where
    in_fence-Ends : (s : Text) → Ends (turn_in_fence n spell true r s)
    unfolding turn_in_fence
    in_fence-Ends s = ground arith

    last-Ends : (s : Text) → Ends (turn_last n spell true s)
    unfolding turn_last
    last-Ends s = ground arith

    header-Ends : (s : Text) → Ends (turn_header n spell true r s)
    unfolding turn_header
    header-Ends s = ground arith

    span-Ends : (s : Text) → Ends (turn_span n spell true r s)
    unfolding turn_span
    span-Ends s = ground arith

    marker-Ends : (s : Text) → Ends (turn_marker n spell true r s)
    unfolding turn_marker
    marker-Ends s = ground arith

    special-Ends : (s : Text) → Ends (turn_special n spell true r s)
    unfolding turn_special
    special-Ends [] = last-Ends []
    special-Ends (c ∷ s) =
        let all = c ∷ s in
        let header = turn_header n spell true r all in
        let span = turn_span n spell true r s in
        Ends-if (c == tick) (if has_prefix all fence then header else span)
          (turn_marker n spell true r s)
          (Ends-if (has_prefix all fence) header span (header-Ends all) (span-Ends s))
          (marker-Ends s)

    outside-Ends :
        (before after : Text)
        → Ends (elim after [
          | [] ↦ turn_last n spell true before
          | c ∷ later ↦
              write_before (prose n spell before) (turn_special n spell true r (c ∷ later))
        ])
    outside-Ends before [] = last-Ends before
    outside-Ends before (c ∷ later) =
        Ends-write (prose n spell before) (turn_special n spell true r (c ∷ later))
          (special-Ends (c ∷ later))

    turn-Ends : (s : Text) → Ends (turn n spell true r s)
    unfolding turn
    turn-Ends s =
        Ends-if r.in_fence (turn_in_fence n spell true r s) _ (in_fence-Ends s)
          (outside-Ends (split_prose s).0 (split_prose s).1)

  carried :
      (f : Numbering → Text → Text × Text × Numbering) (r : Numbering) (s : Text) (x : Turn)
      → Ends x
      → Reads s x
      → ((q : Numbering) (u : Text) → length u < length s → (f q u).1 ≡ [])
      → (carry_on n spell f r x).1 ≡ []
  carried f r s (stops out held) h k ih = h
  carried f r s (goes out rest q) h k ih = ih q rest k

  rounds-end :
      (fuel : ℕ) (r : Numbering) (s : Text)
      → length s ≤ fuel
      → (rounds n spell fuel true r s).1 ≡ []
  unfolding rounds
  rounds-end zero r [] h = refl
  rounds-end zero r (c ∷ s) h = absurd (omega (arith, h))
  rounds-end (suc fuel) r [] h = refl
  rounds-end (suc fuel) r (c ∷ s) h =
      carried (rounds n spell fuel true) r (c ∷ s) (turn n spell true r (c ∷ s))
        (turn-Ends r (c ∷ s)) (turn-Reads n spell true r c s)
        λ q u k. rounds-end fuel q u (omega (arith, k, h))

  -- When the answer has ended, as many rounds as there are characters decide all of the text, in
  -- every language: what flush drops as the rest is empty.
  pub decide_whole : (r : Numbering) (s : Text) → (decide n spell true r s).1 ≡ []
  unfolding decide
  decide_whole r s = rounds-end (length s) r s (omega arith)

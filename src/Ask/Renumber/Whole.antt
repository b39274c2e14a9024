-- ===== src/Ask/Renumber/Whole.antt =====
-- A whole answer: nothing of it is left over, and its numbers are the sources in the order of their
-- first use.
use rongo.Prelude.{
  ℕ, zero, suc, sym, Bool, true, false, not, ◌&&◌, Option, none, some, List, [], ◌∷◌, ◌++◌, Text,
  length, take, drop, ◌==◌, ltb, arith, if◌then◌else◌, has_prefix,
}
use mathlib.Core.Path.{subst}
use rongo.Ask.Markers.{open_bracket, Numbering, chain_at_start, chain_more, marker_prefix}
use rongo.Ask.Rewriting.{rewrite_chain}
use rongo.Ask.Rewriting.Order.{IsNumbered, rewrite_chain-IsNumbered}
use rongo.Ask.Renumber.{
  tick, fence, split_prose, Turn, goes, stops, write_before, turn_in_fence, turn_last, turn_header,
  turn_span, turn_marker, turn_special, turn, is_ticks, prose, rounds, decide, feed, flush, stream,
}
use rongo.Ask.Renumber.Extend.{marker_on, marker-form}
use rongo.Ask.Renumber.Progress.{carry_on}

module _ (n : ℕ) (spell : Option (Text → Text)) where
  abbrev Keeps : Turn → Type 0
  Keeps (goes out rest r) = IsNumbered n r
  Keeps (stops out held) = Unit

  Keeps-if : (b : Bool) (x y : Turn) → Keeps x → Keeps y → Keeps (if b then x else y)
  Keeps-if true x y hx hy = hx
  Keeps-if false x y hx hy = hy

  Keeps-write : (p : Text) (x : Turn) → Keeps x → Keeps (write_before p x)
  Keeps-write p (goes out rest r) h = h
  Keeps-write p (stops out held) h = tt

  module _ (e : Bool) (r : Numbering) (h : IsNumbered n r) where
    in_fence-Keeps : (s : Text) → Keeps (turn_in_fence n spell e r s)
    unfolding turn_in_fence
    in_fence-Keeps s = ground (arith, h)

    last-Keeps : (s : Text) → Keeps (turn_last n spell e s)
    unfolding turn_last
    last-Keeps s = ground arith

    header-Keeps : (s : Text) → Keeps (turn_header n spell e r s)
    unfolding turn_header
    header-Keeps s = ground (arith, h)

    span-Keeps : (s : Text) → Keeps (turn_span n spell e r s)
    unfolding turn_span
    span-Keeps s = ground (arith, h)

    marker_on-Keeps : (s : Text) (x : Option ℕ) → Keeps (marker_on n spell e r e s x)
    marker_on-Keeps s none =
        Keeps-if (not e && marker_prefix (open_bracket ∷ s)) (stops [] (open_bracket ∷ s))
          (goes (open_bracket ∷ []) s r) tt h
    marker_on-Keeps s (some k) =
        let all = open_bracket ∷ s in
        let new = rewrite_chain n (take k all) r in
        Keeps-if (not e && chain_more (drop k all)) (stops [] all) (goes new.0 (drop k all) new.1)
          tt (rewrite_chain-IsNumbered n (take k all) r h)

    marker-Keeps : (s : Text) → Keeps (turn_marker n spell e r s)
    marker-Keeps s =
        subst Keeps (sym (marker-form n spell e r e s))
          (marker_on-Keeps s (chain_at_start (open_bracket ∷ s)))

    special-Keeps : (s : Text) → Keeps (turn_special n spell e r s)
    unfolding turn_special
    special-Keeps [] = last-Keeps []
    special-Keeps (c ∷ s) =
        let all = c ∷ s in
        let header = turn_header n spell e r all in
        let span = turn_span n spell e r s in
        let ticked : Turn = if has_prefix all fence then header else span in
        let held = not e && (ltb (length all) 3 && is_ticks n spell all) in
        Keeps-if (c == tick) (if held then stops [] all else ticked) (turn_marker n spell e r s)
          (Keeps-if held (stops [] all) ticked tt
            (Keeps-if (has_prefix all fence) header span (header-Keeps all) (span-Keeps s)))
          (marker-Keeps s)

    outside-Keeps :
        (before after : Text)
        → Keeps (elim after [
          | [] ↦ turn_last n spell e before
          | c ∷ later ↦ write_before (prose n spell before) (turn_special n spell e r (c ∷ later))
        ])
    outside-Keeps before [] = last-Keeps before
    outside-Keeps before (c ∷ later) =
        Keeps-write (prose n spell before) (turn_special n spell e r (c ∷ later))
          (special-Keeps (c ∷ later))

    turn-Keeps : (s : Text) → Keeps (turn n spell e r s)
    unfolding turn
    turn-Keeps s =
        Keeps-if r.in_fence (turn_in_fence n spell e r s) _ (in_fence-Keeps s)
          (outside-Keeps (split_prose s).0 (split_prose s).1)

  carried :
      (f : Numbering → Text → Text × Text × Numbering) (r : Numbering) (x : Turn)
      → IsNumbered n r
      → Keeps x
      → ((q : Numbering) (u : Text) → IsNumbered n q → IsNumbered n (f q u).2)
      → IsNumbered n (carry_on n spell f r x).2
  carried f r (stops out held) h k ih = h
  carried f r (goes out rest q) h k ih = ih q rest k

  rounds-IsNumbered :
      (fuel : ℕ) (e : Bool) (r : Numbering) (s : Text)
      → IsNumbered n r
      → IsNumbered n (rounds n spell fuel e r s).2
  unfolding rounds
  rounds-IsNumbered zero e r s h = h
  rounds-IsNumbered (suc fuel) e r [] h = h
  rounds-IsNumbered (suc fuel) e r (c ∷ s) h =
      carried (rounds n spell fuel e) r (turn n spell e r (c ∷ s)) h (turn-Keeps e r h (c ∷ s))
        λ q u k. rounds-IsNumbered fuel e q u k

  -- Streaming keeps the numbering: the sources cited so far are sources of the prompt, each has its
  -- place among them for its number, counted from 1, and no other source has a number.
  pub stream-IsNumbered :
      (pending : Text) (r : Numbering) (tokens : List Text)
      → IsNumbered n r
      → IsNumbered n (stream n spell pending r tokens).1
  unfolding stream feed flush decide
  stream-IsNumbered pending r [] h = rounds-IsNumbered (length pending) true r pending h
  stream-IsNumbered pending r (token ∷ tokens) h =
      let s = pending ++ token in
      let kept = rounds-IsNumbered (length s) false r s h in
      stream-IsNumbered (rounds n spell (length s) false r s).1
        (rounds n spell (length s) false r s).2 tokens kept

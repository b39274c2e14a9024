-- ===== src/Ask/Renumber/Progress.antt =====
-- Every round that goes on has read something, so the rounds are enough.
use rongo.Prelude.{
  ℕ, zero, suc, ◌+◌, ◌≤◌, ◌<◌, ◌≡◌, refl, ap, Bool, true, false, not, ◌&&◌, Option, none, some, [],
  ◌∷◌, ◌++◌, Text, length, length-drop, ltb, ◌==◌, if◌then◌else◌, has_prefix, arith,
}
use rongo.Ask.Markers.{open_bracket, Mode, bracket, scan, chain_at_start, Numbering, advance}
use rongo.Ask.Renumber.{
  tick, fence, find_fence, split_prose, split_line, find_close, Turn, goes, stops, write_before,
  turn_in_fence, turn_last, turn_header, turn_span, turn_marker, turn_special, turn, rounds, decide,
  prose, is_ticks,
}

abbrev pub Reads : Text → Turn → Type 0
Reads s (goes out rest r) = length rest < length s
Reads s (stops out rest) = Unit

Reads-if : (s : Text) (b : Bool) (x y : Turn) → Reads s x → Reads s y → Reads s (if b then x else y)
Reads-if s true x y hx hy = hx
Reads-if s false x y hx hy = hy

written-Reads :
    (p : Text) (x : Turn) (s t : Text)
    → length s ≤ length t
    → Reads s x
    → Reads t (write_before p x)
written-Reads p (goes out rest r) s t h k = omega (arith, h, k)
written-Reads p (stops out rest) s t h k = tt

split_prose-le : (s : Text) → length (split_prose s).1 ≤ length s
unfolding split_prose
split_prose-le [] = omega arith
split_prose-le (c ∷ s) = let ih = split_prose-le s in ground (arith, ih)

abbrev Behind : Text → Option (Text × Text) → Type 0
Behind s none = Unit
Behind s (some (before, after)) = length after < length s

find_fence-Behind : (s : Text) → Behind s (find_fence s)
unfolding find_fence
find_fence-Behind [] = tt
find_fence-Behind (c ∷ s) = let ih = find_fence-Behind s in ground (arith, ih)

abbrev LineBehind : Text → Option Text → Type 0
LineBehind s none = Unit
LineBehind s (some after) = length after < length s

split_line-LineBehind : (s : Text) → LineBehind s (split_line s).1
unfolding split_line
split_line-LineBehind [] = tt
split_line-LineBehind (c ∷ s) = let ih = split_line-LineBehind s in ground (arith, ih)

abbrev Closes : Text → Option (Text × Bool × Text) → Type 0
Closes s none = Unit
Closes s (some (span, ticked, after)) = length after < length s

find_close-Closes : (s : Text) → Closes s (find_close s)
unfolding find_close
find_close-Closes [] = tt
find_close-Closes (c ∷ s) = let ih = find_close-Closes s in ground (arith, ih)

-- A run of markers is not empty and ends within the text.
abbrev pub Within : ℕ → ℕ → Option ℕ → Type 0
Within low high none = Unit
Within low high (some k) = (low ≤ k) × (k ≤ high)

step-Within :
    (x : Option (Option Mode)) (pos high : ℕ) (best : Option ℕ) (s : Text)
    → suc pos ≤ high
    → Within 1 high best
    → ((m : Mode) (b : Option ℕ) → Within 1 high b → Within 1 high (scan m (suc pos) b s))
    → Within 1 high (elim x [
      | none ↦ best
      | some (some m) ↦ scan m (suc pos) best s
      | some none ↦ scan Mode.seam (suc pos) (some (suc pos)) s
    ])
step-Within none pos high best s l h ih = h
step-Within (some (some m)) pos high best s l h ih = ih m best h
step-Within (some none) pos high best s l h ih = ih Mode.seam (some (suc pos)) (omega arith, l)

scan-Within :
    (m : Mode) (pos high : ℕ) (best : Option ℕ) (s : Text)
    → pos + length s ≤ high
    → Within 1 high best
    → Within 1 high (scan m pos best s)
unfolding scan
scan-Within m pos high best [] l h = h
scan-Within m pos high best (c ∷ s) l h =
    step-Within (advance m c) pos high best s (omega (arith, l)) h
      λ m' b k. scan-Within m' (suc pos) high b s (omega (arith, l)) k

pub chain_at_start-Within : (s : Text) → Within 1 (length s) (chain_at_start s)
unfolding chain_at_start
chain_at_start-Within [] = tt
chain_at_start-Within (c ∷ s) =
    let h = scan-Within bracket 1 (length (c ∷ s)) none s (omega arith) tt in ground (arith, h)

module _ (n : ℕ) (spell : Option (Text → Text)) where
  turn_in_fence-Reads :
      (e : Bool) (r : Numbering) (s : Text) → Reads s (turn_in_fence n spell e r s)
  unfolding turn_in_fence
  turn_in_fence-Reads e r s = let h = find_fence-Behind s in ground (arith, h)

  turn_last-Reads : (e : Bool) (s t : Text) → Reads t (turn_last n spell e s)
  unfolding turn_last
  turn_last-Reads e s t = ground arith

  turn_header-Reads :
      (e : Bool) (r : Numbering) (c : ℕ) (s : Text)
      → Reads (c ∷ s) (turn_header n spell e r (c ∷ s))
  unfolding turn_header
  turn_header-Reads e r c s =
      let h = split_line-LineBehind (c ∷ s) in let d = length-drop 3 (c ∷ s) in ground (arith, h, d)

  turn_span-Reads :
      (e : Bool) (r : Numbering) (s : Text) → Reads (tick ∷ s) (turn_span n spell e r s)
  unfolding turn_span
  turn_span-Reads e r s = let h = find_close-Closes s in ground (arith, h)

  turn_marker-Reads :
      (e : Bool) (r : Numbering) (s : Text) → Reads (open_bracket ∷ s) (turn_marker n spell e r s)
  unfolding turn_marker
  turn_marker-Reads e r s =
      let h = chain_at_start-Within (open_bracket ∷ s) in grind (arith, h, length-drop)

  turn_special-Reads :
      (e : Bool) (r : Numbering) (c : ℕ) (s : Text)
      → Reads (c ∷ s) (turn_special n spell e r (c ∷ s))
  unfolding turn_special
  turn_special-Reads e r c s =
      let all = c ∷ s in
      let header = turn_header n spell e r all in
      let span = turn_span n spell e r s in
      let opened =
        Reads-if all (has_prefix all fence) header span (turn_header-Reads e r c s)
          (turn_span-Reads e r s) in
      let held = not e && (ltb (length all) 3 && is_ticks n spell all) in
      let ticked : Turn = if has_prefix all fence then header else span in
      Reads-if all (c == tick) (if held then stops [] all else ticked) (turn_marker n spell e r s)
        (Reads-if all held (stops [] all) ticked tt opened) (turn_marker-Reads e r s)

  special-Reads :
      (e : Bool) (r : Numbering) (before after s : Text)
      → length after ≤ length s
      → Reads s (elim after [
        | [] ↦ turn_last n spell e before
        | c ∷ later ↦ write_before (prose n spell before) (turn_special n spell e r (c ∷ later))
      ])
  special-Reads e r before [] s h = turn_last-Reads e before s
  special-Reads e r before (c ∷ later) s h =
      written-Reads (prose n spell before) (turn_special n spell e r (c ∷ later)) (c ∷ later) s h
        (turn_special-Reads e r c later)

  pub turn-Reads :
      (e : Bool) (r : Numbering) (c : ℕ) (s : Text) → Reads (c ∷ s) (turn n spell e r (c ∷ s))
  unfolding turn
  turn-Reads e r c s = Reads-if (c ∷ s) r.in_fence _ _ (turn_in_fence-Reads e r (c ∷ s)) (
      special-Reads e r (split_prose (c ∷ s)).0 (split_prose (c ∷ s)).1 (c ∷ s)
        (split_prose-le (c ∷ s)))

  abbrev pub carry_on :
      (Numbering → Text → Text × Text × Numbering) → Numbering → Turn → Text × Text × Numbering
  carry_on loop r (stops out rest) = (out, rest, r)
  carry_on loop r (goes out rest r') =
      let (later, held, r'') = loop r' rest in (out ++ later, held, r'')

  rounds-cons :
      (fuel : ℕ) (e : Bool) (r : Numbering) (c : ℕ) (s : Text)
      → rounds n spell (suc fuel) e r (c ∷ s)
        ≡ carry_on (rounds n spell fuel e) r (turn n spell e r (c ∷ s))
  unfolding rounds
  rounds-cons fuel e r c s = refl

  carry_on-same :
      (f g : Numbering → Text → Text × Text × Numbering) (r : Numbering) (s : Text) (t : Turn)
      → Reads s t
      → ((q : Numbering) (u : Text) → length u < length s → f q u ≡ g q u)
      → carry_on f r t ≡ carry_on g r t
  carry_on-same f g r s (stops out rest) h same = refl
  carry_on-same f g r s (goes out rest r') h same =
      ap (λ x. (out ++ x.0, x.1, x.2)) (same r' rest h)

  rounds-enough :
      (f g : ℕ) (e : Bool) (r : Numbering) (s : Text)
      → length s ≤ f
      → length s ≤ g
      → rounds n spell f e r s ≡ rounds n spell g e r s
  unfolding rounds
  rounds-enough zero zero e r s hf hg = refl
  rounds-enough zero (suc g) e r [] hf hg = refl
  rounds-enough (suc f) zero e r [] hf hg = refl
  rounds-enough zero (suc g) e r (c ∷ s) hf hg = absurd (omega (arith, hf))
  rounds-enough (suc f) zero e r (c ∷ s) hf hg = absurd (omega (arith, hg))
  rounds-enough (suc f) (suc g) e r [] hf hg = refl
  rounds-enough (suc f) (suc g) e r (c ∷ s) hf hg =
      carry_on-same (rounds n spell f e) (rounds n spell g e) r (c ∷ s) (turn n spell e r (c ∷ s))
        (turn-Reads e r c s)
        λ q u h. rounds-enough f g e q u (omega (arith, h, hf)) (omega (arith, h, hg))

  -- The loop by itself, without the count of its rounds.
  pub decide-cons :
      (e : Bool) (r : Numbering) (c : ℕ) (s : Text)
      → decide n spell e r (c ∷ s) ≡ carry_on (decide n spell e) r (turn n spell e r (c ∷ s))
  unfolding decide
  decide-cons e r c s =
      carry_on-same (rounds n spell (length s) e) (decide n spell e) r (c ∷ s)
        (turn n spell e r (c ∷ s)) (turn-Reads e r c s)
        λ q u h. rounds-enough (length s) (length u) e q u (omega (arith, h)) (omega arith)

-- ===== src/Ask/Renumber/Stream.antt =====
-- What the reader gets does not depend on where the answer was cut into tokens.
use rongo.Prelude.{
  ℕ, zero, suc, ◌≤◌, ◌<◌, ◌≡◌, refl, sym, ap, ◌∙◌, Bool, true, false, none, List, [], ◌∷◌, ◌++◌,
  Text, length, arith,
}
use mathlib.Core.List.{append_assoc, append-nil}
use rongo.Ask.Markers.{Numbering}
use rongo.Ask.Renumber.{
  find_fence, trailing_backticks, split_prose, Turn, goes, stops, write_before, turn_in_fence,
  turn_last, turn, decide, stream,
}
use rongo.Ask.Renumber.Progress.{Reads, turn-Reads, carry_on, decide-cons}
use rongo.Ask.Renumber.Follow.{written, Follows, turn-Follows, again}

module _ (n : ℕ) where
  abbrev loop : Bool → Numbering → Text → Text × Text × Numbering
  loop = decide n none

  quiet : (e : Bool) (r : Numbering) → turn n none e r [] ≡ stops [] []
  unfolding turn turn_in_fence turn_last find_fence trailing_backticks split_prose
  quiet e r = ground arith

  loop-form :
      (e : Bool) (r : Numbering) (s : Text)
      → loop e r s ≡ carry_on n none (loop e) r (turn n none e r s)
  unfolding decide
  loop-form e r [] = ap (carry_on n none (loop e) r) (sym (quiet e r))
  loop-form e r (c ∷ s) = decide-cons n none e r c s

  -- What is left over is decided with what comes after it.
  abbrev resume : Bool → Text → Text × Text × Numbering → Text × Text × Numbering
  resume e t (out, held, r) = written out (loop e r (held ++ t))

  written-written :
      (p q : Text) (x : Text × Text × Numbering) → written (p ++ q) x ≡ written p (written q x)
  written-written p q (out, held, r) = ap (λ l. (l, held, r)) (append_assoc p q out)

  carry-written :
      (f : Numbering → Text → Text × Text × Numbering) (p : Text) (r : Numbering) (x : Turn)
      → carry_on n none f r (write_before p x) ≡ written p (carry_on n none f r x)
  carry-written f p r (stops out held) = refl
  carry-written f p r (goes out rest q) = written-written p out (f q rest)

  loop-step :
      (e : Bool) (t : Text) (r : Numbering) (s : Text) (x y : Turn)
      → Reads s x
      → Follows t (again n e t r) x y
      → ((q : Numbering) (u : Text)
          → length u < length s
          → loop e q (u ++ t) ≡ resume e t (loop false q u))
      → carry_on n none (loop e) r y ≡ resume e t (carry_on n none (loop false) r x)
  loop-step e t r s (stops out held) y reads follows ih =
      ap (carry_on n none (loop e) r) follows
      ∙ carry-written (loop e) out r (turn n none e r (held ++ t))
      ∙ ap (written out) (sym (loop-form e r (held ++ t)))
  loop-step e t r s (goes out rest q) y reads follows ih =
      ap (carry_on n none (loop e) r) follows
      ∙ ap (written out) (ih q rest reads)
      ∙ sym (written-written out (loop false q rest).0 _)

  -- A text of at most `bound` characters, and the text that follows it.
  loop-append :
      (bound : ℕ) (e : Bool) (r : Numbering) (s t : Text)
      → length s ≤ bound
      → loop e r (s ++ t) ≡ resume e t (loop false r s)
  unfolding decide
  loop-append bound e r [] t h = refl
  loop-append zero e r (c ∷ s) t h = absurd (omega (arith, h))
  loop-append (suc bound) e r (c ∷ s) t h =
      loop-form e r (c ∷ (s ++ t))
      ∙ loop-step e t r (c ∷ s) (turn n none false r (c ∷ s)) (turn n none e r (c ∷ (s ++ t)))
          (turn-Reads n none false r c s) (turn-Follows n e t r (c ∷ s))
          (λ q u k. loop-append bound e q u t (omega (arith, k, h)))
      ∙ ap (resume e t) (sym (loop-form false r (c ∷ s)))

  abbrev pub joined : List Text → Text
  joined [] = []
  joined (token ∷ tokens) = token ++ joined tokens

  -- What the reader gets of a text that has arrived whole.
  abbrev at_once : Text → Numbering → Text × Numbering
  at_once s r = ((loop true r s).0, (loop true r s).2)

  stream-joined :
      (pending : Text) (r : Numbering) (tokens : List Text)
      → stream n none pending r tokens ≡ at_once (pending ++ joined tokens) r
  unfolding stream
  stream-joined pending r [] = ap (λ s. at_once s r) (sym (append-nil pending))
  stream-joined pending r (token ∷ tokens) =
      let step = loop false r (pending ++ token) in
      let rest = joined tokens in
      ap (λ x. (step.0 ++ x.0, x.1)) (stream-joined step.1 step.2 tokens)
      ∙ ap (λ x. (x.0, x.2))
          (sym
            (loop-append (length (pending ++ token)) true r (pending ++ token) rest (omega arith)))
      ∙ ap (λ s. at_once s r) (append_assoc pending token rest)

  -- In every language but German, the reader gets the same text, and the sources the same numbers,
  -- however the answer was cut into tokens: two lists of tokens that are one text joined are
  -- streamed alike, from any state and with anything pending.
  pub stream_of-joined :
      (pending : Text) (r : Numbering) (tokens others : List Text)
      → joined tokens ≡ joined others
      → stream n none pending r tokens ≡ stream n none pending r others
  stream_of-joined pending r tokens others e =
      stream-joined pending r tokens
      ∙ ap (λ s. at_once (pending ++ s) r) e
      ∙ sym (stream-joined pending r others)

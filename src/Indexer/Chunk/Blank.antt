-- ===== src/Indexer/Chunk/Blank.antt =====
-- A text is blank exactly if every character of it is a space, and a join is blank exactly if every
-- line is.
use mathlib.Core.List.{reverse, reverse_aux}
use rongo.Prelude.{
  ℕ, zero, suc, ◌≡◌, refl, sym, ◌∙◌, Bool, true, false, ◌&&◌, inl, inr, List, [], ◌∷◌, ◌++◌, Text,
  arith, is_space, trim_left, trim_space, text_eq, join, Bool-cases, get_or, ◌==◌, cons_head,
  split_on,
}
use rongo.Indexer.Chunk.Assemble.{is_blank, trim_newline, lines_of}

all_space : Text → Bool
all_space [] = true
all_space (c ∷ s) = is_space c && all_space s

all_space-append : (s t : Text) → all_space (s ++ t) ≡ (all_space s && all_space t)
unfolding all_space
all_space-append [] t = refl
all_space-append (c ∷ s) t = ground (arith, all_space-append s t)

all_space-reverse_aux : (s t : Text) → all_space (reverse_aux s t) ≡ (all_space s && all_space t)
unfolding all_space
all_space-reverse_aux [] t = refl
all_space-reverse_aux (c ∷ s) t = ground (arith, all_space-reverse_aux s (c ∷ t))

all_space-reverse : (s : Text) → all_space (reverse s) ≡ all_space s
unfolding all_space
all_space-reverse s = ground (arith, all_space-reverse_aux s [])

all_space-trim_left : (s : Text) → all_space (trim_left s) ≡ all_space s
unfolding all_space trim_left
all_space-trim_left [] = refl
all_space-trim_left (c ∷ s) = ground (arith, all_space-trim_left s)

trim_left-blank : (s : Text) → all_space s ≡ true → trim_left s ≡ []
unfolding all_space trim_left
trim_left-blank [] h = refl
trim_left-blank (c ∷ s) h = ground (arith, trim_left-blank s)

text_eq-nil : (s : Text) → all_space s ≡ false → text_eq s [] ≡ false
unfolding all_space
text_eq-nil [] h = cc
text_eq-nil (c ∷ s) h = refl

is_blank-all_space : (s : Text) → is_blank s ≡ all_space s
unfolding is_blank trim_space
is_blank-all_space s = elim (Bool-cases (all_space s)) [
  | inl t ↦ rw (trim_left-blank s t) (sym t)
  | inr f ↦
      text_eq-nil _ (
        all_space-reverse _
        ∙ all_space-trim_left _
        ∙ all_space-reverse _
        ∙ all_space-trim_left s
        ∙ f)
      ∙ sym f
]

all_space-join :
    (ts : List Text) (n : ℕ)
    → all_space (join ts (10 ∷ [])) ≡ true
    → all_space (get_or ts n []) ≡ true
unfolding all_space join is_space
all_space-join [] n h = refl
all_space-join (t ∷ []) zero h = h
all_space-join (t ∷ []) (suc n) h = refl
all_space-join (t ∷ u ∷ ts) zero h =
    ground (arith, all_space-append t (10 ∷ join (u ∷ ts) (10 ∷ [])))
all_space-join (t ∷ u ∷ ts) (suc n) h =
    all_space-join (u ∷ ts) n (ground (arith, all_space-append t (10 ∷ join (u ∷ ts) (10 ∷ []))))

-- A join by newlines with a line that is not blank is not blank.
pub is_blank-join :
    (ts : List Text) (n : ℕ)
    → is_blank (get_or ts n []) ≡ false
    → is_blank (join ts (10 ∷ [])) ≡ false
is_blank-join ts n h = elim (Bool-cases (is_blank (join ts (10 ∷ [])))) [
  | inr f ↦ f
  | inl t ↦ cc (
    is_blank-all_space (get_or ts n []),
    all_space-join ts n (sym (is_blank-all_space (join ts (10 ∷ []))) ∙ t),
  )
]

all_space-trim_newline : (s : Text) → all_space s ≡ true → all_space (trim_newline s) ≡ true
unfolding all_space trim_newline
all_space-trim_newline [] h = refl
all_space-trim_newline (c ∷ []) h = ground arith
all_space-trim_newline (c ∷ d ∷ s) h = ground (arith, all_space-trim_newline (d ∷ s))

all_space-cons_head :
    (c : ℕ) (ts : List Text) (n : ℕ)
    → is_space c ≡ true
    → all_space (get_or ts n []) ≡ true
    → all_space (get_or (cons_head c ts) n []) ≡ true
unfolding all_space
all_space-cons_head c [] zero h k = ground arith
all_space-cons_head c [] (suc n) h k = refl
all_space-cons_head c (t ∷ ts) zero h k = ground arith
all_space-cons_head c (t ∷ ts) (suc n) h k = k

all_space-split_on :
    (s : Text) (n : ℕ) → all_space s ≡ true → all_space (get_or (split_on 10 s) n []) ≡ true
unfolding all_space split_on
all_space-split_on [] zero h = refl
all_space-split_on [] (suc n) h = refl
all_space-split_on (c ∷ s) zero h = elim (Bool-cases (c == 10)) [
  | inl t ↦ rw t refl
  | inr f ↦ rw f (
      all_space-cons_head c (split_on 10 s) zero (ground arith)
        (all_space-split_on s zero (ground arith)))
]
all_space-split_on (c ∷ s) (suc n) h = elim (Bool-cases (c == 10)) [
  | inl t ↦ rw t (all_space-split_on s n (ground arith))
  | inr f ↦ rw f (
      all_space-cons_head c (split_on 10 s) (suc n) (ground arith)
        (all_space-split_on s (suc n) (ground arith)))
]

-- No line of a blank body has anything in it.
pub is_blank-lines_of :
    (body : Text) (n : ℕ) → is_blank body ≡ true → is_blank (get_or (lines_of body) n []) ≡ true
unfolding lines_of
is_blank-lines_of body n h =
    is_blank-all_space _
    ∙ all_space-split_on (trim_newline body) n
        (all_space-trim_newline body (sym (is_blank-all_space body) ∙ h))

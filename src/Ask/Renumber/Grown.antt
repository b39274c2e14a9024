-- ===== src/Ask/Renumber/Grown.antt =====
-- What is found in a text is found at the same place in a longer one.
use rongo.Prelude.{
  ℕ, zero, suc, ◌≤◌, ◌≡◌, refl, ap, Bool, true, false, Option, none, some, [], ◌∷◌, ◌++◌, Text,
  length, take, drop, ◌==◌, if◌then◌else◌, arith,
}
use rongo.Ask.Renumber.{find_fence, split_line, find_close}

-- What is found in a text is found in a longer one.
abbrev pub Grown : Text → Option (Text × Text) → Option (Text × Text) → Type 0
Grown t none y = Unit
Grown t (some (before, after)) y = y ≡ some (before, after ++ t)

pub find_fence-Grown : (s t : Text) → Grown t (find_fence s) (find_fence (s ++ t))
unfolding find_fence
find_fence-Grown [] t = tt
find_fence-Grown (c ∷ []) t = ground arith
find_fence-Grown (c ∷ d ∷ []) t = ground arith
find_fence-Grown (c ∷ d ∷ b ∷ s) t = let ih = find_fence-Grown (d ∷ b ∷ s) t in ground (arith, ih)

pub behind_header-Grown :
    (s t : Text) → Grown t (find_fence (drop 3 s)) (find_fence (drop 3 (s ++ t)))
unfolding find_fence
behind_header-Grown [] t = tt
behind_header-Grown (c ∷ []) t = tt
behind_header-Grown (c ∷ d ∷ []) t = tt
behind_header-Grown (c ∷ d ∷ b ∷ s) t = find_fence-Grown s t

abbrev pub CloseGrown : Text → Option (Text × Bool × Text) → Option (Text × Bool × Text) → Type 0
CloseGrown t none y = Unit
CloseGrown t (some (span, ticked, after)) y = y ≡ some (span, ticked, after ++ t)

pub find_close-Grown : (s t : Text) → CloseGrown t (find_close s) (find_close (s ++ t))
unfolding find_close
find_close-Grown [] t = tt
find_close-Grown (c ∷ s) t = let ih = find_close-Grown s t in ground (arith, ih)

-- A line that has ended is the same line; one that has not is the front of the longer line.
abbrev pub LineGrown : Text → Text × Option Text → Text × Option Text → Type 0
LineGrown t (line, none) y = (more : Text) × (y.0 ≡ line ++ more)
LineGrown t (line, some after) y = y ≡ (line, some (after ++ t))

line-step :
    (c : ℕ) (s t : Text) (b : Bool) (x y : Text × Option Text)
    → LineGrown t x y
    → LineGrown t
        (if b then ([], some s) else (c ∷ x.0, x.1))
        (if b then ([], some (s ++ t)) else (c ∷ y.0, y.1))
line-step c s t true x y h = refl
line-step c s t false (line, none) y (more, h) = (more, ap (λ l. c ∷ l) h)
line-step c s t false (line, some after) y h = ap (λ z. (c ∷ z.0, z.1)) h

pub split_line-LineGrown : (s t : Text) → LineGrown t (split_line s) (split_line (s ++ t))
unfolding split_line
split_line-LineGrown [] t = ((split_line t).0, refl)
split_line-LineGrown (c ∷ s) t =
    line-step c s t (c == 10) (split_line s) (split_line (s ++ t)) (split_line-LineGrown s t)

pub drop_append : (k : ℕ) (s t : Text) → k ≤ length s → drop k (s ++ t) ≡ drop k s ++ t
drop_append zero s t h = refl
drop_append (suc k) [] t h = absurd (omega (arith, h))
drop_append (suc k) (c ∷ s) t h = drop_append k s t (omega (arith, h))

pub take_append : (k : ℕ) (s t : Text) → k ≤ length s → take k (s ++ t) ≡ take k s
take_append zero s t h = refl
take_append (suc k) [] t h = absurd (omega (arith, h))
take_append (suc k) (c ∷ s) t h = ap (λ l. c ∷ l) (take_append k s t (omega (arith, h)))

-- ===== src/Prelude/Texts.antt =====
-- Go's strings where the code walks them: lists of code points, with what the code uses of the
-- packages `strings` and `unicode`.
use Prim.Native.Nat.{ℕ, zero, suc, ◌+◌, ◌/◌, ◌%◌}
use Prim.Native.Char.{code}
use Prim.Native.String.{String}
use mathlib.Core.Path.{◌≡◌, refl}
use mathlib.Core.Logic.{◌↔◌}
use mathlib.Core.Bool.{Bool, true, false, ◌&&◌, ◌||◌}
use mathlib.Core.Option.{Option, none, some}
use mathlib.Core.List.{List, [], ◌∷◌, ◌++◌, reverse}
use native.Mathlib.Omega.{arith}
use rongo.Prelude.Tests.{ltb, leb, ◌==◌, if◌then◌else◌}

abbrev pub Text : Type 0
Text = List ℕ

-- The code points of a literal.
abbrev pub codes : String → Text
codes String.[] = []
codes (String.◌∷◌ c s) = code c ∷ codes s

abbrev pub text_eq : Text → Text → Bool
text_eq [] [] = true
text_eq (c ∷ s) (d ∷ t) = c == d && text_eq s t
text_eq _ _ = false

pub text_eq_iff : (s t : Text) → (text_eq s t ≡ true) ↔ (s ≡ t)
text_eq_iff [] [] = (λ h. refl, λ e. refl)
text_eq_iff [] (d ∷ t) = (λ h. cc, λ e. cc)
text_eq_iff (c ∷ s) [] = (λ h. cc, λ e. cc)
text_eq_iff (c ∷ s) (d ∷ t) = let ih = text_eq_iff s t in ground (arith, ih)

-- `strings.HasPrefix`
abbrev pub has_prefix : Text → Text → Bool
has_prefix s [] = true
has_prefix [] (d ∷ p) = false
has_prefix (c ∷ s) (d ∷ p) = c == d && has_prefix s p

-- The text without as many characters as the first one has.
abbrev pub skip : Text → Text → Text
skip [] s = s
skip (d ∷ p) [] = []
skip (d ∷ p) (c ∷ s) = skip p s

-- `strings.HasSuffix`
abbrev pub has_suffix : Text → Text → Bool
has_suffix s p = has_prefix (reverse s) (reverse p)

-- `strings.Cut`: what is before the first place where the separator stands, and what is after it.
unfoldable pub cut : Text → Text → Option (Text × Text)
cut [] sep = if text_eq sep [] then some ([], []) else none
cut (c ∷ s) sep =
    let later : Option (Text × Text) = elim (cut s sep) [
      | none ↦ none
      | some (before, after) ↦ some (c ∷ before, after)
    ] in
    if has_prefix (c ∷ s) sep then some ([], skip sep (c ∷ s)) else later

-- `unicode.IsSpace`
unfoldable pub is_space : ℕ → Bool
is_space c =
    (leb 9 c && leb c 13)
    || (c == 32)
    || (c == 0x85)
    || (c == 0xa0)
    || (c == 0x1680)
    || (leb 0x2000 c && leb c 0x200a)
    || (c == 0x2028)
    || (c == 0x2029)
    || (c == 0x202f)
    || (c == 0x205f)
    || (c == 0x3000)

unfoldable pub trim_left : Text → Text
trim_left [] = []
trim_left (c ∷ s) = let rest = trim_left s in if is_space c then rest else c ∷ s

-- `strings.TrimSpace`
unfoldable pub trim_space : Text → Text
unfolding trim_left
trim_space s = reverse (trim_left (reverse (trim_left s)))

-- `strings.Join`
unfoldable pub join : List Text → Text → Text
join [] sep = []
join (s ∷ []) sep = s
join (s ∷ t ∷ ts) sep = s ++ (sep ++ join (t ∷ ts) sep)

abbrev pub cons_head : ℕ → List Text → List Text
cons_head c [] = (c ∷ []) ∷ []
cons_head c (t ∷ ts) = (c ∷ t) ∷ ts

-- `strings.Split` at one character.
unfoldable pub split_on : ℕ → Text → List Text
split_on sep [] = [] ∷ []
split_on sep (c ∷ s) = let rest = split_on sep s in if c == sep then [] ∷ rest else cons_head c rest

-- `strings.ToLower`, up to characters that no ASCII text is compared with: besides A to Z, the
-- Kelvin sign and the dotted capital I are the ones that ASCII letters are lower case of.
abbrev pub lower : ℕ → ℕ
lower c =
    if leb b'A' c && leb c b'Z'
    then c + 32
    else if c == 0x212a
    then b'k'
    else if c == 0x130
    then b'i'
    else c

-- `path.Ext`: from the last dot on, if no slash follows it. The second argument is the best so far.
unfoldable pub ext_from : Text → Text → Text
ext_from [] best = best
ext_from (c ∷ s) best = ext_from s (if c == b'/' then [] else if c == b'.' then c ∷ s else best)

unfoldable pub ext : Text → Text
unfolding ext_from
ext p = ext_from p []

unfoldable pub after_slash : Text → Text → Text
after_slash [] best = best
after_slash (c ∷ s) best = after_slash s (if c == b'/' then s else best)

unfoldable pub trim_slashes : Text → Text
trim_slashes [] = []
trim_slashes (c ∷ s) = let rest = trim_slashes s in if c == b'/' then rest else c ∷ s

-- `path.Base`
unfoldable pub base : Text → Text
unfolding after_slash trim_slashes
base [] = codes "."
base p =
    let t = reverse (trim_slashes (reverse p)) in
    if text_eq t [] then codes "/" else after_slash t t

unfoldable pub text_in : Text → List Text → Bool
text_in s [] = false
text_in s (t ∷ ts) = text_eq s t || text_in s ts

-- Go's `<` on strings: by bytes, which for UTF-8 is by code points.
unfoldable pub text_lt : Text → Text → Bool
text_lt s [] = false
text_lt [] (d ∷ t) = true
text_lt (c ∷ s) (d ∷ t) = ltb c d || (c == d && text_lt s t)

-- `strconv.Itoa`, with as many rounds as the number is large.
unfoldable pub itoa_from : ℕ → ℕ → Text
itoa_from zero n = []
itoa_from (suc rounds) n =
    let front = itoa_from rounds (n / 10) in
    if ltb n 10 then (n + 48) ∷ [] else front ++ (n % 10 + 48) ∷ []

unfoldable pub itoa : ℕ → Text
unfolding itoa_from
itoa n = itoa_from (suc n) n

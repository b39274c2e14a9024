-- ===== src/Ask/Gather/Admit.antt =====
-- backend/internal/ask/gather.go: a source, and the admitter, which takes sources under a budget.
-- The map `seen` is the list of its keys, the set `allowed` the list of its members.
use rongo.Prelude.{
  ℕ, ◌+◌, ◌/◌, Bool, true, false, ◌||◌, not, Option, none, some, List, [], ◌∷◌, ◌++◌, Text, text_in,
  id_in, length, ltb, ◌==◌, if◌then◌else◌,
}

pub record Source : Type 0 where
  pub chunk_id : ℕ
  pub repo : Text
  pub branch : Text
  pub path : Text
  pub symbol : Text
  pub start_line : ℕ
  pub end_line : ℕ
  pub sha : Text
  pub text : Text
  pub reason : Text
  pub hop : ℕ
  pub kind : Text
  pub commit_id : ℕ
  pub subject : Text
  pub committed_at : ℕ
  pub paths : List Text

-- `estimateTokens`
unfoldable pub estimate_tokens : Text → ℕ
estimate_tokens s = if length s == 0 then 0 else (length s + 3) / 4

pub record Admitter : Type 0 where
  pub seen : List ℕ
  pub spent : ℕ
  pub budget : ℕ
  pub out : List Source
  pub allowed : Option (List Text)

unfoldable pub in_ceiling : Option (List Text) → Text → Bool
unfolding text_in
in_ceiling none repo = true
in_ceiling (some repos) repo = text_in repo repos

unfoldable pub permits : Admitter → Source → Bool
unfolding in_ceiling
permits a s = in_ceiling a.allowed s.repo

-- The chunk is taken, whatever it costs.
unfoldable pub push : Source → Admitter → Admitter
unfolding estimate_tokens
push s a = record a {
  seen = s.chunk_id ∷ a.seen;
  spent = a.spent + estimate_tokens s.text;
  out = a.out ++ s ∷ [];
}

-- `take`
unfoldable pub admit : Source → ℕ → Admitter → Admitter × Bool
unfolding permits id_in push estimate_tokens
admit s hop a =
    if id_in s.chunk_id a.seen || not (permits a s)
    then (a, true)
    else if ltb a.budget (a.spent + estimate_tokens s.text)
    then (a, false)
    else (push (record s { hop = hop }) a, true)

-- Sources are admitted until one is refused; false if one is.
unfoldable pub admit_all : List Source → ℕ → Admitter → Admitter × Bool
admit_all [] hop a = (a, true)
admit_all (s ∷ ss) hop a =
    let (a', more) = admit s hop a in
    let rest = admit_all ss hop a' in if more then rest else (a', false)

-- The inner loop of a symbol hop: what is reached and was not seen is admitted, and is the next
-- frontier. False if the budget is spent.
unfoldable pub admit_refs : List Source → ℕ → Admitter → Admitter × List Source × Bool
admit_refs [] hop a = (a, [], true)
admit_refs (ref ∷ refs) hop a =
    let skip = admit_refs refs hop a in
    let (a', more) = admit ref hop a in
    let (last, next, ends) = admit_refs refs hop a' in
    if id_in ref.chunk_id a.seen || not (permits a ref)
    then skip
    else if more
    then (last, ref ∷ next, ends)
    else (a', [], false)

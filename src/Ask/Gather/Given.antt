-- ===== src/Ask/Gather/Given.antt =====
-- backend/internal/ask/gather.go: what the walk starts from, the hits and the seeds, and the budgets of
-- its phases.
use rongo.Prelude.{
  id_in, ℕ, ◌+◌, ◌-◌, ◌/◌, Bool, not, Option, none, some, List, [], ◌∷◌, map, Text, codes, text_in,
  length, ◌==◌, if◌then◌else◌,
}
use rongo.Retrieve.Hits.{Hit}
use rongo.Ask.Gather.Admit.{Source, Admitter, estimate_tokens, push}
use rongo.Ask.Gather.Walk.{Runes, Gatherer, words}

abbrev pub crossing_reserve : ℕ
crossing_reserve = 6

abbrev pub gap_reserve : ℕ
gap_reserve = 12

abbrev pub locate_reserve : ℕ
locate_reserve = 8

abbrev question_stopwords : List Text
question_stopwords = map codes (
    "is" ∷ "in" ∷ "to" ∷ "an" ∷ "of" ∷ "on" ∷ "at" ∷ "it" ∷ "be" ∷ "by" ∷ "or" ∷ "the" ∷ "and"
    ∷ "how" ∷ "what" ∷ "where" ∷ "when" ∷ "does" ∷ "for" ∷ "with" ∷ "im" ∷ "am" ∷ "zu" ∷ "wo"
    ∷ "wie" ∷ "der" ∷ "die" ∷ "das" ∷ "und" ∷ "ist" ∷ "wird" ∷ "den" ∷ "dem" ∷ "ein" ∷ "eine"
    ∷ "mit" ∷ "von" ∷ "für" ∷ "auf" ∷ [])

unfoldable pub question_terms : List Text → List Text
unfolding text_in
question_terms [] = []
question_terms (w ∷ ws) =
    let rest = question_terms ws in if text_in w question_stopwords then rest else w ∷ rest

-- `withTerms`
unfoldable pub with_terms : Runes → Text → Gatherer → Gatherer
unfolding question_terms words
with_terms u question g =
    let terms = question_terms (words u question) in
    record g { terms = (if length terms == 0 then none else some terms) }

-- `Gatherer.allowed`
unfoldable pub allowed : Gatherer → Option (List Text)
allowed g = if length g.ceiling == 0 then none else some g.ceiling

-- `hitSource`
unfoldable pub hit_source : {F : Type 0} → Hit F → Text → Source
hit_source h reason = record {
  chunk_id = h.chunk_id;
  repo = h.repo;
  branch = h.branch;
  path = h.path;
  symbol = h.symbol;
  start_line = h.start_line;
  end_line = h.end_line;
  sha = h.sha;
  text = h.raw_text;
  reason = reason;
  hop = 0;
  kind = [];
  commit_id = 0;
  subject = [];
  committed_at = 0;
  paths = [];
}

module _ {F : Type 0} where
  unfoldable pub admit_hits : List (Hit F) → Admitter → Admitter
  unfolding push id_in hit_source
  admit_hits [] a = a
  admit_hits (h ∷ hits) a =
      admit_hits hits (if id_in h.chunk_id a.seen then a else push (hit_source h (codes "hit")) a)

unfoldable pub admit_seeds : List Source → Admitter → Admitter
unfolding push id_in
admit_seeds [] a = a
admit_seeds (s ∷ seeds) a =
    admit_seeds seeds (if id_in s.chunk_id a.seen then a else push (record s { hop = 0 }) a)

abbrev pub reserved : Bool → ℕ → ℕ → ℕ
reserved on budget share = if on then budget / share else 0

unfoldable pub crossing_budget : Gatherer → ℕ
crossing_budget g =
    let budget = g.opts.token_budget in
    budget - reserved g.gap budget gap_reserve - reserved g.locate budget locate_reserve

unfoldable pub symbol_budget : Gatherer → ℕ
symbol_budget g =
    let budget = g.opts.token_budget in
    budget
    - reserved (not g.opts.no_crossings) budget crossing_reserve
    - reserved g.gap budget gap_reserve
    - reserved g.locate budget locate_reserve

unfoldable pub total_tokens : List Source → ℕ
unfolding estimate_tokens
total_tokens [] = 0
total_tokens (s ∷ ss) = estimate_tokens s.text + total_tokens ss

abbrev pub empty_handed : Gatherer → Admitter
empty_handed g = record { seen = []; spent = 0; budget = 0; out = []; allowed = allowed g }

-- The hits and the seeds, before anything is gathered.
unfoldable pub given : {F : Type 0} → Gatherer → List (Hit F) → List Source → Admitter
unfolding admit_hits admit_seeds allowed symbol_budget
given g hits seeds = record (admit_seeds seeds (admit_hits hits (empty_handed g))) {
  budget = symbol_budget g;
}

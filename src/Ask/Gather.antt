-- ===== src/Ask/Gather.antt =====
-- backend/internal/ask/gather.go: GatherSeeded, which makes sources of search hits: the hits, their
-- files, what their code mentions, and what other repositories share with them.
pub mod Admit
pub mod Given
pub mod Walk
pub mod Answers
pub mod Kept
pub mod Books
pub mod Grows
mod Tests
use rongo.Prelude.{
  id_in, ℕ, zero, suc, ◌+◌, ◌-◌, ◌/◌, Bool, true, false, not, ◌&&◌, ◌||◌, Option, none, some, List,
  [], ◌∷◌, ◌++◌, map, Text, codes, text_eq, text_in, length, ltb, leb, ◌==◌, if◌then◌else◌,
}
use rongo.Prelude.Fallible.{◌>>=◌}
use rongo.Retrieve.Hits.{Hit}
use rongo.Ask.Gather.Admit.{
  Source, Admitter, estimate_tokens, permits, push, admit, admit_all, admit_refs,
}
use rongo.Ask.Gather.Given.{crossing_reserve, total_tokens, given, crossing_budget}
use rongo.Ask.Gather.Walk.{
  Runes, Reads, GatherOptions, Gatherer, is_property_edge, mechanism_first, is_properties_path,
  within, crossings, referenced, words,
}

-- The key of a file, `repo + "\x00" + path`.
abbrev file_key : Text → Text → Text
file_key repo path = repo ++ 0 ∷ path

-- A landing that is held back, with the source that it was reached from.
pub record Crossing : Type 0 where
  pub from : Source
  pub landing : Source

module _ (db : Reads) (u : Runes) (g : Gatherer) where
  module _ {F : Type 0} where
    -- The loop of `wholeFile` over the chunks of the file, of which all have `total` tokens.
    unfoldable pub file_parts : Hit F → ℕ → List Source → List Source
    file_parts h total [] = []
    file_parts h total (s ∷ ss) =
        let rest = file_parts h total ss in
        if s.chunk_id == h.chunk_id
        then rest
        else if leb total g.opts.whole_file_tokens
        then record s { reason = codes "file:whole" } ∷ rest
        else if not (text_eq h.symbol []) && text_eq s.symbol h.symbol
        then record s { reason = codes "file:symbol" } ∷ rest
        else rest

    unfoldable pub whole_file : Hit F → Option (List Source)
    unfolding file_parts total_tokens
    whole_file h = db.chunks_of h.repo h.path >>= λ ss. some (file_parts h (total_tokens ss) ss)

    unfoldable pub whole_files : List (Hit F) → List Text → Admitter → Option Admitter
    whole_files [] filed a = some a
    whole_files (h ∷ hits) filed a =
        let key = file_key h.repo h.path in
        let skip = whole_files hits filed a in
        if text_in key filed
        then skip
        else whole_file h >>= λ more. whole_files hits (key ∷ filed) ((admit_all more 0 a).0)

  unfoldable pub hop_refs : List Source → Option (List Source)
  hop_refs [] = some []
  hop_refs (from ∷ frontier) =
      referenced u db g from >>= λ r. hop_refs frontier >>= λ rs. some (r ++ rs)

  -- The loop `symbols`, with as many hops as are left.
  unfoldable pub symbol_hops : ℕ → ℕ → List Source → Admitter → Option Admitter
  symbol_hops zero hop frontier a = some a
  symbol_hops (suc left) hop frontier a = hop_refs frontier >>= λ refs.
      let (a', next, more) = admit_refs (mechanism_first refs) hop a in
      let further = symbol_hops left (suc hop) next a' in
      if not more || length next == 0 then some a' else further

  -- `land`: false when the budget is spent.
  unfoldable pub land : Source → Source → Admitter → Option (Admitter × Bool)
  land landing from a =
      let (a', more) = admit landing (from.hop + 1) a in
      if id_in landing.chunk_id a.seen || not (permits a landing)
      then some (a, true)
      else if not more
      then some (a', false)
      else if is_property_edge landing.reason
      then some (a', true)
      else referenced u db g landing >>= λ inland.
          some (admit_all (mechanism_first inland) (from.hop + 2) a')

  -- The landings from one file. Those over a property key are held back.
  unfoldable pub land_all :
      List Source → Source → Admitter → List Crossing → Option (Admitter × List Crossing × Bool)
  land_all [] from a later = some (a, later, true)
  land_all (landing ∷ rest) from a later =
      let hold = land_all rest from a (later ++ record { from = from; landing = landing } ∷ []) in
      if is_property_edge landing.reason
      then hold
      else land landing from a >>= λ r.
          let further = land_all rest from r.0 later in
          if r.1 then further else some (r.0, later, false)

  -- The first pass of the crossing, over everything that the walk gathered.
  unfoldable pub cross_all :
      List Source
      → List Text
      → List (Text × Text)
      → Admitter
      → List Crossing
      → Option (Admitter × List Crossing × Bool)
  cross_all [] crossed stage a later = some (a, later, true)
  cross_all (from ∷ starts) crossed stage a later =
      let key = file_key from.repo from.path in
      let skip = cross_all starts crossed stage a later in
      if text_in key crossed
      then skip
      else crossings u db g from >>= λ far.
          land_all (mechanism_first (within far stage)) from a later >>= λ r.
          let further = cross_all starts (key ∷ crossed) stage r.0 r.1 in
          if r.2 then further else some r

  unfoldable pub has_terms : Bool
  has_terms = elim g.terms [ none ↦ false | some terms ↦ true ]

  abbrev config_to_config : Crossing → Bool
  config_to_config c =
      has_terms && is_properties_path c.from.path && is_properties_path c.landing.path

  -- The second pass, with what configuration files have spent on each other.
  unfoldable pub land_later : List Crossing → ℕ → Admitter → Option Admitter
  land_later [] config_spent a = some a
  land_later (c ∷ later) config_spent a =
      let cost = estimate_tokens c.landing.text in
      let over =
        id_in c.landing.chunk_id a.seen
        || ltb (g.opts.token_budget / crossing_reserve) (config_spent + cost) in
      let skip = land_later later config_spent a in
      if config_to_config c && over
      then skip
      else land c.landing c.from a >>= λ r.
          let further =
            land_later later (if config_to_config c then config_spent + cost else config_spent)
              r.0 in
          if r.1 then further else some r.0

  unfoldable pub cross : List (Text × Text) → Admitter → Option (List Source)
  cross stage a = cross_all a.out [] stage a [] >>= λ r.
      if not r.2 then some (r.0.out) else (land_later r.1 0 r.0 >>= λ last. some last.out)

  module _ {F : Type 0} where
    -- `GatherSeeded`
    unfoldable pub gather_seeded :
        List (Hit F) → List Source → List (Text × Text) → Option (List Source)
    gather_seeded hits seeds stage =
        if length hits == 0 && length seeds == 0
        then some []
        else (if ltb 0 g.opts.whole_file_tokens
            then whole_files hits [] (given g hits seeds)
            else some (given g hits seeds))
          >>= λ filed. symbol_hops g.opts.max_hops 1 filed.out filed >>= λ walked.
              if g.opts.no_crossings
              then some walked.out
              else cross stage (record walked { budget = crossing_budget g })

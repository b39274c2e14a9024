-- ===== src/Ask/Gather/Walk.antt =====
-- backend/internal/ask/gather.go and backend/internal/edges: which chunks a walk reaches from a source.
-- What the database answers is in `Reads`, `none` for an error; the tables of the package unicode are
-- in `Runes`.
use rongo.Prelude.{
  ℕ, ◌+◌, Bool, true, false, not, ◌&&◌, ◌||◌, Option, none, some, List, [], ◌∷◌, ◌++◌, map, Text,
  codes, cut, has_prefix, skip, text_eq, text_in, text_lt, lower, ext, length, filter, ltb, ◌==◌,
  if◌then◌else◌,
}
use rongo.Prelude.Sorting.{sort_stable}
use rongo.Prelude.Fallible.{◌>>=◌}
use rongo.Retrieve.Paths.{is_test_path}
use rongo.Ask.Gather.Admit.{Source}

pub record Runes : Type 0 where
  pub is_letter : ℕ → Bool
  pub is_digit : ℕ → Bool
  pub is_upper : ℕ → Bool
  pub is_lower : ℕ → Bool
  pub to_lower : ℕ → ℕ

pub record Neighbour : Type 0 where
  pub repo : Text
  pub path : Text
  pub kind : Text
  pub value : Text
  pub line : ℕ

pub record Reads : Type 0 where
  -- The chunks of a file, in its order.
  pub chunks_of : (repo path : Text) → Option (List Source)
  -- The query of `definers`.
  pub definers : (names : List Text) (home not_repo not_path : Text) → Option (List Source)
  -- `edges.NeighboursWith`
  pub neighbours : (suffix : Bool) (repo path : Text) → Option (List Neighbour)
  pub chunk_at : (repo path : Text) (line : ℕ) → Option (Option Source)

pub record GatherOptions : Type 0 where
  pub max_hops : ℕ
  pub token_budget : ℕ
  pub no_crossings : Bool
  pub route_suffix : Bool
  pub whole_file_tokens : ℕ

-- `Gatherer`; `gap` and `locate` say that their clients are set.
pub record Gatherer : Type 0 where
  pub opts : GatherOptions
  pub gap : Bool
  pub locate : Bool
  pub ceiling : List Text
  pub terms : Option (List Text)

-- `NewGatherer`
unfoldable pub new_gatherer : GatherOptions → Gatherer
new_gatherer o = record {
  opts = record o { token_budget = (if o.token_budget == 0 then 24000 else o.token_budget) };
  gap = false;
  locate = false;
  ceiling = [];
  terms = none;
}

-- `edgeVia`: the kind, the value and the near side of a crossing's reason.
unfoldable pub edge_via : Text → Option (Text × Text × Text)
unfolding cut
edge_via reason =
    if not (has_prefix reason (codes "edge:"))
    then none
    else elim (cut (skip (codes "edge:") reason) (codes " from ")) [
      | none ↦ none
      | some (via, from) ↦ elim (cut via (codes " ")) [
        | none ↦ none
        | some (kind, value) ↦
            if text_eq kind [] || text_eq value [] then none else some (kind, value, from)
      ]
    ]

unfoldable pub is_property_edge : Text → Bool
unfolding edge_via
is_property_edge reason = elim (edge_via reason) [
  | none ↦ false
  | some (kind, value, from) ↦ text_eq kind (codes "property")
]

unfoldable pub mechanism_first : List Source → List Source
unfolding is_test_path
mechanism_first ss =
    filter (λ (s : Source). not (is_test_path s.path)) ss
    ++ filter (λ (s : Source). is_test_path s.path) ss

-- `IsPropertiesPath`
unfoldable pub is_properties_path : Text → Bool
unfolding ext
is_properties_path p = text_eq (map lower (ext p)) (codes ".properties")

unfoldable pub kind_rank : Text → ℕ
kind_rank k =
    if text_eq k (codes "route") then 0 else if text_eq k (codes "destination") then 1 else 2

unfoldable pub stage_of : Text → List (Text × Text) → Option Text
stage_of repo [] = none
stage_of repo ((r, prefix) ∷ stages) =
    let rest = stage_of repo stages in if text_eq repo r then some prefix else rest

-- `inStage`; the map from repositories to prefixes is an association list.
unfoldable pub in_stage : Text → Text → List (Text × Text) → Bool
unfolding stage_of
in_stage repo path stage = elim (stage_of repo stage) [
  | none ↦ true
  | some prefix ↦ has_prefix path prefix
]

unfoldable pub within : List Source → List (Text × Text) → List Source
unfolding in_stage
within landings [] = landings
within landings (p ∷ stage) = filter (λ (s : Source). in_stage s.repo s.path (p ∷ stage)) landings

-- How many bytes a code point has in UTF-8.
abbrev rune_len : ℕ → ℕ
rune_len c = if ltb c 0x80 then 1 else if ltb c 0x800 then 2 else if ltb c 0x10000 then 3 else 4

abbrev byte_len : Text → ℕ
byte_len [] = 0
byte_len (c ∷ s) = rune_len c + byte_len s

unfoldable pub drop_repeats : List Text → List Text
unfolding text_in
drop_repeats [] = []
drop_repeats (s ∷ ss) = let rest = drop_repeats ss in if text_in s rest then rest else s ∷ rest

module _ (u : Runes) where
  -- `strings.FieldsFunc` in `Identifiers`, with the field that is being read.
  unfoldable pub fields : Text → Text → List Text
  fields cur [] = if text_eq cur [] then [] else cur ∷ []
  fields cur (c ∷ s) =
      let inside = u.is_letter c || u.is_digit c || (c == b'_') in
      let rest = fields (if inside then cur ++ c ∷ [] else []) s in
      if inside || text_eq cur [] then rest else cur ∷ rest

  -- `identifiers`: the keys of `edges.Identifiers`, sorted.
  unfoldable pub identifiers : Text → List Text
  unfolding fields drop_repeats sort_stable
  identifiers s =
      sort_stable text_lt (drop_repeats (filter (λ (f : Text). ltb 2 (byte_len f)) (fields [] s)))

  abbrev flushed : Text → List Text
  flushed cur = if ltb 1 (length cur) then map u.to_lower cur ∷ [] else []

  -- `words`, with the word that is being read, and whether the last rune was lower case.
  unfoldable pub words_from : Text → Bool → Text → List Text
  words_from cur prev_lower [] = flushed cur
  words_from cur prev_lower (r ∷ s) =
      let inside = u.is_letter r || u.is_digit r in
      let breaks = not inside || (prev_lower && u.is_upper r) in
      let next = if inside then (if breaks then r ∷ [] else cur ++ r ∷ []) else [] in
      let rest = words_from next (inside && (u.is_lower r || u.is_digit r)) s in
      if breaks then flushed cur ++ rest else rest

  unfoldable pub words : Text → List Text
  unfolding words_from
  words text = words_from [] false text

  unfoldable pub any_in : List Text → List Text → Bool
  unfolding text_in
  any_in [] terms = false
  any_in (w ∷ ws) terms = text_in w terms || any_in ws terms

  -- `crossReason`
  unfoldable pub cross_reason : Gatherer → Neighbour → Source → Bool
  unfolding words any_in is_properties_path
  cross_reason g n from = elim g.terms [
    | none ↦ true
    | some terms ↦
        if not (text_eq n.kind (codes "property"))
        then true
        else if not (is_properties_path from.path) || not (is_properties_path n.path)
        then true
        else any_in (words n.value) terms
  ]

  module _ (db : Reads) (g : Gatherer) where
    abbrev edge_reason : Neighbour → Source → Text
    edge_reason n from =
        codes "edge:"
        ++ (n.kind
            ++ (codes " "
                ++ (n.value ++ (codes " from " ++ (from.repo ++ (codes "/" ++ from.path))))))

    -- The chunk that covers the token's line, if there is one, before the other landings.
    unfoldable pub landed :
        Neighbour → Source → Option Source → Option (List Source) → Option (List Source)
    landed n from none rest = rest
    landed n from (some s) rest =
        rest >>= λ ss. some (record s { reason = edge_reason n from } ∷ ss)

    unfoldable pub landings : Source → List Neighbour → Option (List Source)
    unfolding landed
    landings from [] = some []
    landings from (n ∷ ns) =
        let rest = landings from ns in
        if not (cross_reason g n from)
        then rest
        else db.chunk_at n.repo n.path n.line >>= λ found. landed n from found rest

    abbrev kind_before : Neighbour → Neighbour → Bool
    kind_before a b = ltb (kind_rank a.kind) (kind_rank b.kind)

    unfoldable pub crossings : Source → Option (List Source)
    crossings from = db.neighbours g.opts.route_suffix from.repo from.path >>= λ ns.
        landings from (sort_stable kind_before ns)

    unfoldable pub referenced : Source → Option (List Source)
    referenced from =
        let names = identifiers from.text in
        if length names == 0 then some [] else db.definers names from.repo from.repo from.path

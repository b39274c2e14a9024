-- ===== src/Indexer/Pipeline/Tests.antt =====
-- backend/internal/indexer/index.go on a tree of three entries, with an embedder that counts a text's length.
use rongo.Prelude.{
  ℕ, ◌+◌, ◌≡◌, ◌≢◌, refl, false, Option, none, some, List, [], ◌∷◌, map, Text, codes, text_eq,
  length, length-map, ap, ltb,
}
use mathlib.Core.Path.{subst}
use mathlib.Core.Option.{some-injective}
use mathlib.Core.Option
use rongo.Prelude.Fallible.{Outcome}
use rongo.Prelude.Int.{pos}
use rongo.Indexer.State.{Counts}
use rongo.Indexer.Chunk.Assemble.{chunk_file, Chunk}
use rongo.Indexer.Select.{select_path, Readers, default_select_options}
use rongo.Indexer.Write.Schema.{FileInfo, Tables, find_file}
use rongo.Indexer.Write.{record_skipped, clear_file_content, upsert_file}
use rongo.Indexer.Write.Reach.{
  no_tables, first-IsInStep, reachable-IsInStep, at_first, and_then, by_skip,
}
use rongo.Indexer.Write.View.{view}
use rongo.Indexer.Write.InStep.{IsInStep}
use rongo.Indexer.Write.Insert.{IsStorable}
use rongo.Indexer.Pipeline.Numbering.{chunk_file-IsStorable}
use rongo.Indexer.Pipeline.Swept.{swept_entry, sweep_lem}
use rongo.Indexer.Pipeline.Sources.{targets, totals, Change, Deps, body, unread}
use rongo.Indexer.Pipeline.Vectors.{vectors, misses, texts}
use rongo.Indexer.Pipeline.Aligned.{IsAligned, IsRight}
use rongo.Indexer.Pipeline.Laws.{IsReliable, CanRun, IsHonest, IsWide, vectors-IsAligned}
use rongo.Indexer.Pipeline.{
  sweep, Run, index_targets, index_target, index_one, index_pathed, index_repo,
}
use rongo.Indexer.Pipeline.Whole.{IsRepoIndexed, index_repo-IsRepoIndexed}

abbrev plain : Readers
plain = record {
  matches = text_eq;
  secret_manifest = λ p b. false;
  redact = λ p b. b;
  match_secret = λ b. [];
  is_config_path = λ p. false;
  generated_marker = λ b. false;
}

body_or_unread : (t : Text) → body t ≢ unread
body_or_unread t e = cc e

abbrev tree : List Change
tree =
    record { path = codes "a.go"; deleted = false; mode = codes "100644"; size = 9 }
    ∷ record { path = codes "link"; deleted = false; mode = codes "120000"; size = 4 }
    ∷ record { path = codes "vendor/b.go"; deleted = false; mode = codes "100644"; size = 5 }
    ∷ []

-- The vector of a text is 0; the state counts the calls of the embedder. The cache is empty.
abbrev deps : Deps ℕ ℕ
deps = record {
  list_entries = λ sha. some tree;
  changed_entries = λ from to. some [];
  read = λ sha path limit. body (codes "package p");
  cancelled = λ p. false;
  extract_bpmn = λ b. none;
  extract_xsd = λ b. none;
  extract_symbols = λ p b. some [];
  extract_tokens = λ p b. [];
  hash = λ t. t;
  runes = λ b. b;
  get = λ s hs. some [];
  put_all = λ s hs vs. some s;
  embed = λ s ts. some (map (λ (t : Text). 0) ts, s + 1);
  limits = record { is_registered = text_eq (codes "shop"); is_wide = λ v. ltb v 1 };
  readers = plain;
  select = default_select_options;
  chunk = record { target = pos 600; max = pos 800; overlap = pos 75; strip = false };
}

abbrev IsZero : Text → ℕ → Type 0
IsZero h v = v ≡ 0

abbrev IsAny : ℕ → Type 0
IsAny s = Unit

zeros : (cs : List Chunk) → IsAligned IsZero cs (map (λ (t : Text). 0) (texts cs))
zeros [] = tt
zeros (c ∷ cs) = (refl, zeros cs)

deps-IsHonest : IsHonest deps IsZero IsAny
deps-IsHonest = record {
  get_right = λ s hs cached g e. subst (IsRight IsZero) (some-injective [] cached e) tt;
  embed_right = λ s cs vs s1 g e l.
      subst (IsAligned IsZero cs)
        (ap (λ (r : List ℕ × ℕ). r.0)
          (some-injective (map (λ (t : Text). 0) (texts cs), s + 1) (vs, s1) e))
        (zeros cs);
  embed_good = λ s ts vs s1 g e. tt;
  put_good = λ s cs vs s1 g a e. tt;
}

deps-IsWide : IsWide deps IsZero
deps-IsWide h v e = rw e refl

deps-IsReliable : IsReliable deps
deps-IsReliable = record {
  lists = λ sha. (tree, refl);
  diffs = λ from to. ([], refl);
  reads = λ sha path limit e. body_or_unread (codes "package p") e;
  goes_on = λ path. refl;
  gets = λ s hs. ([], refl);
  puts = λ s hs vs. (s, refl);
  embeds = λ s ts. ((map (λ (t : Text). 0) ts, s + 1), refl, length-map (λ (t : Text). 0) ts);
}

abbrev empty : Tables ℕ
empty = no_tables

abbrev full_run : Option (Run ℕ ℕ × Counts)
full_run = index_repo deps (codes "shop") (codes "c0") [] none (empty, 0)

-- Of two chunks with one hash, one text is embedded.
abbrev twin : Chunk
twin = record {
  ordinal = 0;
  start_line = 1;
  end_line = 1;
  symbol = [];
  text = codes "x";
  raw_text = codes "x";
  search_text = codes "x";
  content_hash = codes "h";
}

twins_once : length (misses {V = ℕ} [] [] (twin ∷ twin ∷ [])) ≡ 1
unfolding misses
twins_once = refl

vectors-IsAligned_example :
    Outcome
      (¬ IsReliable deps)
      (λ (r : List ℕ × ℕ). IsAligned IsZero (twin ∷ twin ∷ []) r.0 × IsAny r.1)
      (vectors deps (twin ∷ twin ∷ []) 0)
vectors-IsAligned_example =
    vectors-IsAligned deps IsZero IsAny deps-IsHonest (twin ∷ twin ∷ []) 0 tt

index_repo-IsRepoIndexed_example :
    Outcome
      (¬ CanRun deps (codes "shop"))
      (IsRepoIndexed deps
        (codes "shop")
        (codes "c0")
        IsZero
        IsAny
        deps-IsHonest
        deps-IsWide
        []
        none
        (empty, 0))
      full_run
index_repo-IsRepoIndexed_example =
    index_repo-IsRepoIndexed deps (codes "shop") (codes "c0") IsZero IsAny deps-IsHonest deps-IsWide
      [] none (empty, 0) first-IsInStep tt

counted :
    Option.map {B = Counts × ℕ}
      (λ (r : Run ℕ ℕ × Counts). (r.1, r.0.1))
      (index_repo deps (codes "shop") (codes "c0") [] (some (codes "vendor/b.go" ∷ [])) (empty, 0))
    ≡ some (record { files = 1; chunks = 0 }, 0)
unfolding index_repo targets index_targets index_target index_one index_pathed select_path totals
    record_skipped clear_file_content upsert_file default_select_options find_file
counted = refl

chunk_file-IsStorable_example :
    IsStorable
      (chunk_file deps.hash (codes "shop") (codes "a.go") (codes "package p") [] deps.chunk)
chunk_file-IsStorable_example =
    chunk_file-IsStorable deps.hash (codes "shop") (codes "a.go") (codes "package p") [] deps.chunk

-- A row that was indexed before its directory was known to be vendored.
abbrev old_row : FileInfo
old_row = record {
  repo = codes "shop";
  path = codes "vendor/b.go";
  sha = codes "c0";
  lang = codes "go";
  size = 5;
}

abbrev old_index : Tables ℕ
old_index = elim (record_skipped deps.limits old_row [] empty) [ none ↦ empty | some db ↦ db ]

old_index-some : record_skipped deps.limits old_row [] empty ≡ some old_index
unfolding record_skipped clear_file_content upsert_file find_file
old_index-some = refl

old_index-IsInStep : IsInStep old_index
old_index-IsInStep =
    reachable-IsInStep deps.limits (and_then at_first (by_skip old_row [] old_index-some))

sweep_lem_example :
    Outcome ⊥
      (λ r.
        IsInStep r.0
        × ((p : Text)
            → view (r.0) (codes "shop") p
              ≡ swept_entry deps (codes "shop") p (view old_index (codes "shop") p))
        × ((r' p : Text)
            → text_eq (codes "shop") r' ≡ false
            → view (r.0) r' p ≡ view old_index r' p))
      (sweep deps (codes "shop") old_index)
sweep_lem_example = sweep_lem deps (codes "shop") old_index old_index-IsInStep

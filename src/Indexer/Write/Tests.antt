-- ===== src/Indexer/Write/Tests.antt =====
-- backend/internal/indexer/write.go on an index of two files, in vectors of one number.
use rongo.Prelude.{
  ℕ, ◌+◌, ◌≡◌, refl, true, Option, none, some, List, [], ◌∷◌, Text, codes, text_eq, text_in, not,
  ◌&&◌, if◌then◌else◌, length, ltb,
}
use mathlib.Core.Option
use rongo.Prelude.Fallible.{Outcome}
use rongo.Indexer.Chunk.Regions.{CodeSymbol}
use rongo.Indexer.Chunk.Assemble.{Chunk}
use rongo.Indexer.Write.Schema.{
  find_file, has_ordinal, owned, FileInfo, Tables, Limits, is_definition,
}
use rongo.Indexer.Write.{
  prune_embed_cache, insert_chunks, insert_chunk, clear_file_content, upsert_file, with_chunk,
  file_id, delete_vec_rows, replace_file, record_skipped, delete_file, delete_files_not_in,
}
use rongo.Indexer.Write.InStep.{IsInStep}
use rongo.Indexer.Write.View.{Entry, view, entry_at, entry_of}
use rongo.Indexer.Write.Kept.{entry_for}
use rongo.Indexer.Write.Upsert.{IsAccepted}
use rongo.Indexer.Write.Skips.{with_entry, record_skipped_lem}
use rongo.Indexer.Write.Deletes.{delete_file_lem}
use rongo.Indexer.Write.Retire.{delete_files_not_in_lem}
use rongo.Indexer.Write.Replace.{IsReplaced, IsWritable, replaced, replace_file_lem}
use rongo.Indexer.Write.Reach.{
  no_tables, reachable-IsInStep, IsAligned, reachable-IsAligned, by_skip, by_delete, at_first,
  and_then,
}

abbrev shop : FileInfo
shop = record {
  repo = codes "shop";
  path = codes "a.go";
  sha = codes "c0";
  lang = codes "go";
  size = 12;
}

abbrev big : FileInfo
big = record {
  repo = codes "shop";
  path = codes "b.json";
  sha = codes "c0";
  lang = codes "json";
  size = 9000;
}

abbrev chunk : ℕ → Text → Chunk
chunk n text = record {
  ordinal = n;
  start_line = n + 1;
  end_line = n + 1;
  symbol = [];
  text = text;
  raw_text = text;
  search_text = text;
  content_hash = text;
}

abbrev two_chunks : List Chunk
two_chunks = chunk 0 (codes "run") ∷ chunk 1 (codes "stop") ∷ []

abbrev vectors : List ℕ
vectors = 7 ∷ 8 ∷ []

abbrev members : List CodeSymbol
members =
    record {
      name = codes "run";
      kind = codes "func";
      line = 1;
      end = 1;
      scope = [];
      scope_kind = [];
    }
    ∷ record {
      name = codes "size";
      kind = codes "member";
      line = 2;
      end = 2;
      scope = [];
      scope_kind = [];
    }
    ∷ []

abbrev empty : Tables ℕ
empty = no_tables

-- The repository shop is registered, and a vector may be any number under 100.
abbrev limits : Limits ℕ
limits = record { is_registered = text_eq (codes "shop"); is_wide = λ v. ltb v 100 }

abbrev at_skip : Tables ℕ
at_skip = elim (record_skipped limits big (codes "too large") empty) [ none ↦ empty | some db ↦ db ]

at_skip-some : record_skipped limits big (codes "too large") empty ≡ some at_skip
unfolding record_skipped clear_file_content upsert_file find_file file_id
at_skip-some = refl

abbrev written : Option (Tables ℕ)
written = replace_file limits shop two_chunks vectors members [] at_skip

is_func : is_definition (codes "go") (codes "func") ≡ true
unfolding is_definition
is_func = refl

at_skip-IsInStep : IsInStep at_skip
at_skip-IsInStep =
    reachable-IsInStep limits (and_then at_first (by_skip big (codes "too large") at_skip-some))

names_once : Option.map (λ (db : Tables ℕ). length db.symbols) written ≡ some 1
unfolding replace_file record_skipped is_definition insert_chunks insert_chunk has_ordinal
    clear_file_content upsert_file find_file with_chunk file_id
names_once = refl

vectors_follow : Option.map (λ (db : Tables ℕ). db.vec) written ≡ some ((1, 7) ∷ (2, 8) ∷ [])
unfolding replace_file record_skipped delete_vec_rows owned insert_chunks insert_chunk has_ordinal
    clear_file_content upsert_file find_file with_chunk file_id
vectors_follow = refl

no_ordinal_twice :
    replace_file limits shop (chunk 0 [] ∷ chunk 0 [] ∷ []) vectors [] [] at_skip ≡ none
unfolding replace_file record_skipped insert_chunks insert_chunk has_ordinal clear_file_content
    upsert_file find_file with_chunk file_id
no_ordinal_twice = refl

no_other_width : replace_file limits shop two_chunks (7 ∷ 800 ∷ []) [] [] at_skip ≡ none
unfolding replace_file record_skipped insert_chunks insert_chunk has_ordinal clear_file_content
    upsert_file find_file with_chunk file_id
no_other_width = refl

no_other_repository : record_skipped limits (record shop { repo = codes "lib" }) [] at_skip ≡ none
unfolding record_skipped clear_file_content upsert_file find_file file_id
no_other_repository = refl

skipped_stays :
    Option.map
      (λ (db : Tables ℕ). Option.map (λ (e : Entry ℕ). e.skip_reason) (view db big.repo big.path))
      written
    ≡ some (some (codes "too large"))
unfolding replace_file record_skipped view entry_at entry_of insert_chunks insert_chunk has_ordinal
    clear_file_content upsert_file find_file with_chunk file_id
skipped_stays = refl

replace_file_lem_example :
    Outcome
      (¬ IsWritable limits shop two_chunks vectors at_skip)
      (λ db'.
        IsWritable limits shop two_chunks vectors at_skip
        × IsReplaced shop (replaced shop two_chunks vectors members []) at_skip db')
      written
replace_file_lem_example =
    replace_file_lem limits shop two_chunks vectors members [] at_skip at_skip-IsInStep

record_skipped_lem_example :
    Outcome
      (¬ IsAccepted limits shop at_skip)
      (λ db'.
        IsInStep db'
        × ((r p : Text)
            → view db' r p
              ≡ with_entry shop.repo shop.path
                  (some (entry_for shop (codes "secret") [] [] []))
                  at_skip
                  r
                  p))
      (record_skipped limits shop (codes "secret") at_skip)
record_skipped_lem_example =
    record_skipped_lem limits shop (codes "secret") at_skip at_skip-IsInStep

delete_file_lem_example :
    IsInStep (delete_file big.repo big.path at_skip)
    × ((r p : Text)
        → view (delete_file big.repo big.path at_skip) r p
          ≡ with_entry big.repo big.path none at_skip r p)
delete_file_lem_example = delete_file_lem big.repo big.path at_skip at_skip-IsInStep

delete_files_not_in_lem_example :
    IsInStep (delete_files_not_in (codes "shop") (codes "a.go" ∷ []) at_skip)
    × ((r p : Text)
        → view (delete_files_not_in (codes "shop") (codes "a.go" ∷ []) at_skip) r p ≡ (
            if text_eq (codes "shop") r && not (text_in p (codes "a.go" ∷ []))
            then none
            else view at_skip r p))
delete_files_not_in_lem_example =
    delete_files_not_in_lem (codes "shop") (codes "a.go" ∷ []) at_skip at_skip-IsInStep

reachable-IsAligned_example : IsAligned (delete_file big.repo big.path at_skip)
reachable-IsAligned_example = reachable-IsAligned limits (delete_file big.repo big.path at_skip) (
    and_then (and_then at_first (by_skip big (codes "too large") at_skip-some))
      (by_delete big.repo big.path))

abbrev cache : List (Text × ℕ)
cache = (codes "run", 7) ∷ (codes "old", 9) ∷ (codes "query:1", 5) ∷ []

old_vector_goes :
    Option.map {B = ℕ × ℕ}
      (λ (db : Tables ℕ). let r = prune_embed_cache cache db in (r.1, r.2))
      written
    ≡ some (1, 2)
unfolding prune_embed_cache replace_file record_skipped insert_chunks insert_chunk has_ordinal
    clear_file_content upsert_file find_file with_chunk file_id
old_vector_goes = refl

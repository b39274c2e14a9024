-- ===== src/Indexer/Chunk/Tests.antt =====
-- Runs of chunk.go, and its theorems at concrete files.
use rongo.Prelude.{
  ◌≡◌, refl, ◌-◌, ◌≤◌, ◌⊎◌, false, List, [], ◌∷◌, map, Text, codes, arith, All, length, get_or,
  is_space, trim_space, split_on, ext, base,
}
use mathlib.Core.List.{flatten}
use rongo.Prelude.Int.{pos}
use rongo.Indexer.Chunk.Windows.{
  ChunkOptions, windows, windows_from, window_end, fill, step_back, next_start, line_tokens,
  split_overlong_line,
}
use rongo.Indexer.Chunk.Cover.{IsCover, FitsBudget, windows-IsCover, windows-FitsBudget}
use rongo.Indexer.Chunk.Pieces.{IsWithin, split_overlong_line_lem}
use rongo.Indexer.Chunk.Regions.{
  CodeSymbol, Region, no_symbol, symbol_regions, anchor_symbols, structural, innermost, contains,
  in_order, anchor_regions, doc_start, is_comment, has_any_prefix,
}
use rongo.Indexer.Chunk.Partition.{
  IsPartition, OwnedOrFree, symbol_regions-IsPartition, symbol_regions-owners,
}
use rongo.Indexer.Chunk.Kinds.{anchor_kind}
use rongo.Indexer.Chunk.Assemble.{ChainPart, RawOptions, chunk_file, normalise, is_blank, lines_of}
use rongo.Indexer.Chunk.Keep.{Holds}
use rongo.Indexer.Chunk.Complete.{InDiagram, chunk_file_complete}

abbrev source : Text
source = codes "package p\n\n// Run starts it.\nfunc Run() {\n\tgo()\n}\n"

abbrev run_symbol : CodeSymbol
run_symbol = record {
  name = codes "Run";
  kind = codes "func";
  line = 4;
  end = 6;
  scope = [];
  scope_kind = [];
}

abbrev small : ChunkOptions
small = record { target_tokens = 8; max_tokens = 8; overlap_tokens = 2; strip_comments = false }

abbrev raw_options : RawOptions
raw_options = record { target = pos 600; max = pos 800; overlap = pos 75; strip = false }

abbrev lines : List Text
lines =
    codes "package p"
    ∷ []
    ∷ codes "// Run starts it."
    ∷ codes "func Run() {"
    ∷ codes "\tgo()"
    ∷ codes "}"
    ∷ []

lines_of-source : lines_of source ≡ lines
unfolding lines_of split_on
lines_of-source = refl

-- The doc comment belongs to the function's region.
regions_of_source :
    symbol_regions lines (run_symbol ∷ []) (anchor_kind (codes "p.go"))
    ≡ record { start = 1; end = 2; sym = no_symbol }
      ∷ record { start = 3; end = 6; sym = run_symbol }
      ∷ []
unfolding symbol_regions anchor_symbols structural innermost contains in_order anchor_regions
    doc_start is_comment has_any_prefix trim_space is_space anchor_kind ext base
regions_of_source = refl

windows_of_source :
    windows lines 3 6 small
    ≡ record { start = 3; end = 3 }
      ∷ record { start = 4; end = 5 }
      ∷ record { start = 5; end = 6 }
      ∷ []
unfolding windows windows_from window_end fill step_back next_start line_tokens
windows_of_source = refl

windows-IsCover_example : IsCover 6 3 (windows lines 3 6 small)
windows-IsCover_example = windows-IsCover lines small 3 6 (omega arith)

windows-FitsBudget_example : All (FitsBudget lines small 6) (windows lines 3 6 small)
windows-FitsBudget_example = windows-FitsBudget lines small 3 6

split_overlong_line_lem_example :
    (flatten (split_overlong_line (codes "0123456789") 2) ≡ codes "0123456789")
    × All (IsWithin 2) (split_overlong_line (codes "0123456789") 2)
split_overlong_line_lem_example = split_overlong_line_lem (codes "0123456789") 2 (omega arith)

symbol_regions-IsPartition_example :
    IsPartition 6 1 (symbol_regions lines (run_symbol ∷ []) (anchor_kind (codes "p.go")))
symbol_regions-IsPartition_example =
    symbol_regions-IsPartition lines (run_symbol ∷ []) (anchor_kind (codes "p.go")) (omega arith)

symbol_regions-owners_example :
    ((map
          (λ (r : Region). r.sym)
          (symbol_regions lines (run_symbol ∷ []) (anchor_kind (codes "p.go")))
        ≡ anchor_symbols (run_symbol ∷ []) 6 (anchor_kind (codes "p.go")))
      ⊎ (map
            (λ (r : Region). r.sym)
            (symbol_regions lines (run_symbol ∷ []) (anchor_kind (codes "p.go")))
          ≡ no_symbol ∷ anchor_symbols (run_symbol ∷ []) 6 (anchor_kind (codes "p.go"))))
    × All OwnedOrFree (symbol_regions lines (run_symbol ∷ []) (anchor_kind (codes "p.go")))
symbol_regions-owners_example =
    symbol_regions-owners lines (run_symbol ∷ []) (anchor_kind (codes "p.go"))

abbrev no_hash : Text → Text
no_hash s = s

unstripped : (normalise raw_options).strip_comments ≡ false
unfolding normalise
unstripped = refl

fifth_within : 5 ≤ length (lines_of source)
unfolding lines_of split_on
fifth_within = omega arith

fifth_not_blank : is_blank (get_or (lines_of source) (5 - 1) []) ≡ false
unfolding lines_of split_on is_blank trim_space is_space
fifth_not_blank = refl

chunk_file_complete_example :
    Holds 5 (chunk_file no_hash (codes "shop") (codes "p.go") source (run_symbol ∷ []) raw_options)
    ⊎ InDiagram 5 (symbol_regions (lines_of source) (run_symbol ∷ []) (anchor_kind (codes "p.go")))
chunk_file_complete_example =
    chunk_file_complete no_hash (codes "shop") (codes "p.go") source (run_symbol ∷ []) raw_options 5
      unstripped (omega arith) fifth_within fifth_not_blank

abbrev run_chain : List ChainPart
run_chain = record { kind = codes "func"; name = codes "Run" } ∷ []

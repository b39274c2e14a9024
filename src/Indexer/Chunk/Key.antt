-- ===== src/Indexer/Chunk/Key.antt =====
-- `contentHash` of chunk.go: no two sets of fields have one key.
use rongo.Prelude.{ℕ, ◌≢◌, List, Text, All}
use rongo.Indexer.Chunk.Assemble.{ChainPart, field_sep, part_sep, kind_sep}

-- The text holds no `sep`.
abbrev pub Free : ℕ → Text → Type 0
Free sep s = All (λ c. c ≢ sep) s

-- None of the three separators occurs in the kind, nor the outer two in the name.
abbrev pub IsClean : ChainPart → Type 0
IsClean p =
    Free field_sep p.kind
    × Free part_sep p.kind
    × Free kind_sep p.kind
    × Free field_sep p.name
    × Free part_sep p.name

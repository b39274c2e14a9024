-- ===== src/Indexer/Pipeline/Plan.antt =====
-- backend/internal/indexer/index.go: what a run is to leave of each path, said without the tables: from the
-- listing, the reads and the selector alone.
use rongo.Prelude.{◌≡◌, Option, none, some, List, [], ◌∷◌, Text, text_eq, length, if◌then◌else◌}
use rongo.Indexer.Chunk.Regions.{CodeSymbol}
use rongo.Indexer.Chunk.Assemble.{Chunk, chunk_file}
use rongo.Indexer.Select.{
  Decision, Verdict, skip_too_large, skip_empty, is_include, select_path, select_size, select_body,
}
use rongo.Indexer.Write.Schema.{FileInfo, Token}
use rongo.Indexer.Write.View.{Entry}
use rongo.Indexer.Write.Kept.{entry_for}
use rongo.Indexer.Write.Replace.{replaced}
use rongo.Indexer.Pipeline.Sources.{
  Target, Reading, body, too_large, unread, Deps, decision_text, is_gone,
}
use rongo.Indexer.Pipeline.Aligned.{IsAligned}
use rongo.Indexer.Pipeline.{file_info, symbols_for}

pub data Wanted : Type 0 where
  -- No row.
  nothing : Wanted
  -- A row with the decision that it was skipped for.
  skipped : FileInfo → Decision → Wanted
  -- The chunks with their vectors, the symbols and the tokens.
  stored : FileInfo → List Chunk → List CodeSymbol → List Token → Wanted
  -- The bytes cannot be read.
  failed : Wanted

module _ {V S : Type 0} (d : Deps V S) (repo sha : Text) where
  abbrev pub wanted_chunks : Text → Text → List CodeSymbol → List Chunk → Wanted
  wanted_chunks path text syms [] = skipped (file_info d repo sha path (length text)) skip_empty
  wanted_chunks path text syms (c ∷ cs) =
      stored (file_info d repo sha path (length text)) (c ∷ cs) syms (d.extract_tokens path text)

  abbrev pub wanted_selected : Text → Verdict × Text → Wanted
  wanted_selected path ((why, detail), text) =
      if is_include why
      then (let syms = symbols_for d repo sha path text in
          wanted_chunks path text syms (chunk_file d.hash repo path (d.runes text) syms d.chunk))
      else skipped (file_info d repo sha path (length text)) why

  abbrev pub wanted_read : Text → Reading → Wanted
  wanted_read path (body text) = wanted_selected path (select_body d.readers d.select path text)
  wanted_read path (too_large size) = skipped (file_info d repo sha path size) skip_too_large
  wanted_read path unread = failed

  abbrev pub wanted_sized : Target → Option Verdict → Wanted
  wanted_sized tg (some v) = skipped (file_info d repo sha tg.path tg.size) (v.0)
  wanted_sized tg none = wanted_read tg.path (d.read sha tg.path d.select.max_bytes)

  abbrev pub wanted_pathed : Target → Option Verdict → Wanted
  wanted_pathed tg (some v) = skipped (file_info d repo sha tg.path 0) (v.0)
  wanted_pathed tg none = wanted_sized tg (select_size d.readers d.select tg.path tg.size)

  unfoldable pub wanted : Target → Wanted
  wanted tg =
      if is_gone tg then nothing else wanted_pathed tg (select_path d.readers d.select tg.path)

  -- The entry is the wanted one, with vectors that are right for the chunks.
  abbrev pub Says : (Text → V → Type 0) → Wanted → Option (Entry V) → Type 0
  Says P nothing o = o ≡ none
  Says P (skipped i why) o = o ≡ some (entry_for i (decision_text why) [] [] [])
  Says P (stored i cs syms toks) o =
      (vs : List V) × IsAligned P cs vs × (o ≡ some (replaced i cs vs syms toks))
  Says P failed o = ⊥

-- The target that a run comes to last for a path.
unfoldable pub last_of : Text → List Target → Option Target
last_of p [] = none
last_of p (tg ∷ tgs) =
    let rest = last_of p tgs in
    elim rest [ some x ↦ some x | none ↦ if text_eq tg.path p then some tg else none ]

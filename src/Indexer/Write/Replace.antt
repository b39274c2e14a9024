-- ===== src/Indexer/Write/Replace.antt =====
-- backend/internal/indexer/write.go: ReplaceFile, as a change of what the index says of each path.
use rongo.Prelude.{
  ℕ, ◌≡◌, ◌≢◌, refl, sym, ap, ◌∙◌, inl, inr, Option, some, List, [], Text, ◌==◌, ==_iff, ==_false→≢,
  Bool-cases, length,
}
use mathlib.Core.Path.{subst}
use rongo.Prelude.Fallible.{◌>>=◌, Outcome, Outcome-bind, Outcome-imp}
use rongo.Prelude.Filters.{All_of}
use rongo.Indexer.Chunk.Regions.{CodeSymbol}
use rongo.Indexer.Chunk.Assemble.{Chunk}
use rongo.Indexer.Write.Schema.{Token, FileInfo, Tables, Limits, find_file, definitions}
use rongo.Indexer.Write.{upsert_file, file_id, clear_file_content, insert_chunks, replace_file}
use rongo.Indexer.Write.InStep.{IsInStep}
use rongo.Indexer.Write.Upsert.{IsUpsert, IsAccepted, upsert_file_lem}
use rongo.Indexer.Write.View.{Entry, view}
use rongo.Indexer.Write.Kept.{IsKept, kept_then, view_kept, view_row, entry_for}
use rongo.Indexer.Write.Insert.{
  IsStorable, AreWide, IsFree, IsInsert, stored_chunks, insert_chunks_lem,
}
use rongo.Indexer.Write.Names.{
  free_of, named_symbols, with_names, names_step, names_rows, names-IsKept, names_symbols,
  names_tokens,
}
use rongo.Indexer.Write.Skips.{
  with_entry, IsCleared, clear_file_content_lem, clear-file_id, apart, view_split, ≢→==_false,
  file_id_found,
}

module _ {V : Type 0} where
  -- The entry that ReplaceFile leaves.
  abbrev pub replaced : FileInfo → List Chunk → List V → List CodeSymbol → List Token → Entry V
  replaced i cs vs syms toks =
      entry_for i [] (stored_chunks cs vs) (named_symbols (definitions i.lang syms)) toks

  -- The index is in step, and says the new entry of the one path.
  pub record IsReplaced (i : FileInfo) (e : Entry V) (db db' : Tables V) : Type 0 where
    pub step : IsInStep db'
    pub views : (r p : Text) → view db' r p ≡ with_entry i.repo i.path (some e) db r p

  module _ (i : FileInfo) (cs : List Chunk) (vs : List V) (syms : List CodeSymbol)
      (toks : List Token) (db db1 db2 : Tables V) (h : IsInStep db) (c : IsCleared i [] db db1 h)
      (k : IsInsert c.row.id cs vs db1 db2 c.step) where
    abbrev last : Tables V
    last = with_names c.row.id (definitions i.lang syms) toks db2

    last_step : IsInStep last
    last_step = names_step c.row.id (definitions i.lang syms) toks db2 k.step

    last_found : (r p : Text) → find_file r p last.files ≡ find_file r p db1.files
    last_found r p = ap (find_file r p) k.files

    last_view : view last i.repo i.path ≡ some (replaced i cs vs syms toks)
    unfolding last_step
    last_view =
        view_row i [] last last_step c.row i.repo i.path (last_found i.repo i.path ∙ c.found) c.said
        ∙ rw
            (
              names_rows c.row.id (definitions i.lang syms) toks db2 k.step,
              k.added,
              c.bare.rows,
              names_symbols c.row.id (definitions i.lang syms) toks db2,
              names_tokens c.row.id (definitions i.lang syms) toks db2,
              k.symbols,
              k.tokens,
              c.bare.symbols,
              c.bare.tokens,
            )
            refl

    last-IsKept : (id : ℕ) → c.row.id ≢ id → IsKept db last h last_step id
    unfolding last_step
    last-IsKept id d =
        let n = ≢→==_false c.row.id id d in
        kept_then db db2 last h k.step last_step id
          (kept_then db db1 db2 h c.step k.step id
            (c.kept id (≢→==_false id c.row.id (λ e. d (sym e)))) (k.kept id n))
          (names-IsKept c.row.id (definitions i.lang syms) toks db2 k.step id n)

    last-IsReplaced : IsReplaced i (replaced i cs vs syms toks) db last
    last-IsReplaced = record {
      step = last_step;
      views = λ r p.
          view_split i.repo i.path (some (replaced i cs vs syms toks)) db last r p last_view (λ d.
            view_kept db last h last_step r p (last_found r p ∙ c.others r p d)
              (λ f found. last-IsKept f.id (apart i [] db db1 h c r p f d found)));
    }

  free_after :
      (i : FileInfo) (cs : List Chunk) (db db1 : Tables V) (h : IsInStep db)
      (c : IsCleared i [] db db1 h)
      → IsFree c.row.id db1.chunks cs
  free_after i cs db db1 h c =
      All_of cs (λ d. rw c.step.chunks (free_of c.row.id d.ordinal c.step.rows c.bare.rows))

  -- What the tables take: the path or its repository has a row, each chunk has a vector, of the width of
  -- `chunks_vec`, no ordinal stands twice, and a chunk with a text can be searched.
  pub record IsWritable (lim : Limits V) (i : FileInfo) (cs : List Chunk) (vs : List V)
      (db : Tables V) : Type 0 where
    pub accepted : IsAccepted lim i db
    pub paired : length cs ≡ length vs
    pub storable : IsStorable cs
    pub wide : AreWide lim vs

  module _ (lim : Limits V) (i : FileInfo) (cs : List Chunk) (vs : List V) (syms : List CodeSymbol)
      (toks : List Token) (db : Tables V) where
    -- What follows the clearing.
    abbrev written : ℕ → Tables V → Option (Tables V)
    written file db1 = insert_chunks lim file cs vs db1 >>= λ db2.
        some (with_names file (definitions i.lang syms) toks db2)

    abbrev Written : Option (Tables V) → Type 0
    Written =
        Outcome (¬ IsWritable lim i cs vs db)
          (λ db'. IsWritable lim i cs vs db × IsReplaced i (replaced i cs vs syms toks) db db')

    written_lem :
        (db1 : Tables V) (h : IsInStep db) (c : IsCleared i [] db db1 h)
        → IsAccepted lim i db
        → length cs ≡ length vs
        → Written (written c.row.id db1)
    written_lem db1 h c a e =
        Outcome-bind (¬ IsWritable lim i cs vs db) _ _ (insert_chunks lim c.row.id cs vs db1) _
          (Outcome-imp (insert_chunks lim c.row.id cs vs db1)
            (λ n p. n (free_after i cs db db1 h c, p.storable, p.wide)) (λ db2 k. k)
            (insert_chunks_lem lim c.row.id cs vs db1 c.step e))
          (λ db2 k. (
            record { accepted = a; paired = e; storable = k.1.storable; wide = k.0 },
            last-IsReplaced i cs vs syms toks db db1 db2 h c k.1,
          ))

    upserted_lem :
        (db1 : Tables V) (h : IsInStep db)
        → IsAccepted lim i db × IsUpsert i [] db db1 h
        → length cs ≡ length vs
        → Written (written (file_id i db1) (clear_file_content (file_id i db1) db1))
    upserted_lem db1 h u e =
        let c = clear_file_content_lem i [] db db1 h u.1 in
        let db2 = clear_file_content (file_id i db1) db1 in
        let same = sym (clear-file_id i (file_id i db1) db1) ∙ file_id_found i db2 c.row c.found in
        subst (λ (n : ℕ). Written (written n db2)) (sym same) (written_lem db2 h c u.0 e)

    -- In an index in step, ReplaceFile fails only if neither the path nor its repository has a row, the numbers
    -- of the chunks and of the vectors differ, a vector has not the width of chunks_vec, two chunks have the same
    -- ordinal, or a chunk with a text has nothing to search. Else none of these is so, the index stays in step,
    -- and says of the path the given row with all the chunks, each under its own vector and searchable text, the
    -- symbols that are definitions and the tokens, and nothing older; of every other path it says what it said.
    pub replace_file_lem :
        IsInStep db
        → Outcome
            (¬ IsWritable lim i cs vs db)
            (λ db'. IsWritable lim i cs vs db × IsReplaced i (replaced i cs vs syms toks) db db')
            (replace_file lim i cs vs syms toks db)
    unfolding replace_file
    replace_file_lem h = elim (Bool-cases (length cs == length vs)) [
      | inr f ↦ rw (replace_file, f) (λ k. ==_false→≢ (length cs) (length vs) f k.paired)
      | inl t ↦
          rw (replace_file, t)
            (Outcome-bind (¬ IsWritable lim i cs vs db) _ _ (upsert_file lim i [] db) _
              (Outcome-imp (upsert_file lim i [] db) (λ n k. n k.accepted) (λ db1 u. u)
                (upsert_file_lem lim i [] db h))
              (λ db1 u. upserted_lem db1 h u ((==_iff (length cs) (length vs)).0 t)))
    ]

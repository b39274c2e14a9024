-- ===== src/Indexer/Write.antt =====
-- backend/internal/indexer/write.go: the transactions that change the index. One that is rolled back is
-- `none`: the tables stay. A statement fails here only by a constraint of the tables: a repository that
-- repo_state does not have, an ordinal twice, a vector of another width.
pub mod Schema
pub mod InStep
pub mod Files
pub mod Upsert
pub mod View
pub mod Kept
pub mod Insert
pub mod Skips
pub mod Names
pub mod Deletes
pub mod Retire
pub mod Replace
pub mod Reach
mod Tests
use rongo.Prelude.{
  ℕ, zero, suc, ◌+◌, Bool, true, false, not, ◌&&◌, ◌||◌, Option, none, some, List, [], ◌∷◌, ◌++◌,
  map, Text, codes, text_eq, text_in, has_prefix, lower, length, filter, id_in, ◌==◌, if◌then◌else◌,
}
use rongo.Prelude.Fallible.{◌>>=◌}
use rongo.Indexer.Chunk.Regions.{CodeSymbol}
use rongo.Indexer.Chunk.Assemble.{Chunk}
use rongo.Indexer.Write.Schema.{
  FileRow, ChunkRow, SymbolRow, Token, TokenRow, Tables, Limits, FileInfo, data_languages,
  non_definition_kinds, is_definition, at_key, find_file, is_stored, set_row, new_row, owned,
  chunk_row, has_ordinal, unsearchable, symbol_row, definitions, token_row, is_file_of, gone_paths,
}

-- Some chunk has the hash.
abbrev pub is_carried : Text → List ChunkRow → Bool
is_carried h [] = false
is_carried h (c ∷ cs) = text_eq c.content_hash h || is_carried h cs

module _ {V : Type 0} where
  -- `upsertFile`, but for the id that it returns. Only a new row can miss its repository.
  unfoldable pub upsert_file : Limits V → FileInfo → Text → Tables V → Option (Tables V)
  upsert_file lim i reason db =
      if is_stored i.repo i.path db.files
      then some (record db { files = map (set_row i reason) db.files })
      else if lim.is_registered i.repo
      then some (record db {
        files = db.files ++ new_row i reason (suc db.last_file) ∷ [];
        last_file = suc db.last_file;
      })
      else none

  -- The id that `upsertFile` reads back.
  unfoldable pub file_id : FileInfo → Tables V → ℕ
  unfolding find_file
  file_id i db = elim (find_file i.repo i.path db.files) [ none ↦ 0 | some f ↦ f.id ]

  -- `deleteVecRows`: one point delete for each id.
  unfoldable pub delete_vec_rows : List ℕ → List (ℕ × V) → List (ℕ × V)
  delete_vec_rows [] rows = rows
  delete_vec_rows (id ∷ ids) rows =
      delete_vec_rows ids (filter (λ (r : ℕ × V). not (r.0 == id)) rows)

  -- All that is stored of some files but their rows, the mirrors first. A chunk's id is its key, so
  -- the chunks with an owned id are those of the files.
  unfoldable pub clear_files : (ℕ → Bool) → Tables V → Tables V
  clear_files mine db =
      let ids = owned mine db.chunks in
      record db {
        vec = delete_vec_rows ids db.vec;
        fts = filter (λ (r : ℕ × Text). not (id_in r.0 ids)) db.fts;
        chunks = filter (λ (c : ChunkRow). not (mine c.file_id)) db.chunks;
        symbols = filter (λ (s : SymbolRow). not (mine s.file_id)) db.symbols;
        tokens = filter (λ (t : TokenRow). not (mine t.file_id)) db.tokens;
      }

  -- `clearFileContent`
  unfoldable pub clear_file_content : ℕ → Tables V → Tables V
  unfolding clear_files
  clear_file_content id db = clear_files (λ n. n == id) db

  -- A row in each of the three tables.
  unfoldable pub with_chunk : ℕ → Chunk → V → Tables V → Tables V
  with_chunk file c v db =
      let id = suc db.last_chunk in
      record db {
        chunks = db.chunks ++ chunk_row id file c ∷ [];
        vec = db.vec ++ (id, v) ∷ [];
        fts = db.fts ++ (id, c.search_text) ∷ [];
        last_chunk = id;
      }

  -- The body of the loop over the chunks.
  unfoldable pub insert_chunk : Limits V → ℕ → Chunk → V → Tables V → Option (Tables V)
  insert_chunk lim file c v db =
      if has_ordinal file c.ordinal db.chunks || unsearchable c || not (lim.is_wide v)
      then none
      else some (with_chunk file c v db)

  unfoldable pub insert_chunks : Limits V → ℕ → List Chunk → List V → Tables V → Option (Tables V)
  insert_chunks lim file [] vs db = some db
  insert_chunks lim file (c ∷ cs) [] db = none
  insert_chunks lim file (c ∷ cs) (v ∷ vs) db =
      insert_chunk lim file c v db >>= λ db'. insert_chunks lim file cs vs db'

  -- `ReplaceFile`
  unfoldable pub replace_file :
      Limits V
      → FileInfo
      → List Chunk
      → List V
      → List CodeSymbol
      → List Token
      → Tables V
      → Option (Tables V)
  replace_file lim i cs vs syms toks db =
      if not (length cs == length vs)
      then none
      else (upsert_file lim i [] db >>= λ db1.
          let file = file_id i db1 in
          insert_chunks lim file cs vs (clear_file_content file db1) >>= λ db2. some (record db2 {
            symbols = db2.symbols ++ map (symbol_row file) (definitions i.lang syms);
            tokens = db2.tokens ++ map (token_row file) toks;
          }))

  -- `RecordSkipped`
  unfoldable pub record_skipped : Limits V → FileInfo → Text → Tables V → Option (Tables V)
  record_skipped lim i reason db =
      upsert_file lim i reason db >>= λ db1. some (clear_file_content (file_id i db1) db1)

  -- `DeleteFile`
  unfoldable pub delete_file : Text → Text → Tables V → Tables V
  delete_file repo path db = record (clear_files (is_file_of repo path db.files) db) {
    files = filter (λ (f : FileRow). not (at_key repo path f)) db.files;
  }

  unfoldable pub delete_paths : Text → List Text → Tables V → Tables V
  delete_paths repo [] db = db
  delete_paths repo (p ∷ ps) db = delete_paths repo ps (delete_file repo p db)

  -- `DeleteFilesNotIn`
  unfoldable pub delete_files_not_in : Text → List Text → Tables V → Tables V
  delete_files_not_in repo keep db = delete_paths repo (gone_paths repo keep db.files) db

  -- `PruneEmbedCache`: the rows of the table `embed_cache` that stay, how many went and how many are
  -- left. SQL's LIKE takes no account of case.
  unfoldable pub prune_embed_cache : List (Text × V) → Tables V → List (Text × V) × ℕ × ℕ
  prune_embed_cache cache db =
      let stays =
        λ (r : Text × V). has_prefix (map lower r.0) (codes "query:") || is_carried r.0 db.chunks in
      let left = filter stays cache in
      (left, length (filter (λ (r : Text × V). not (stays r)) cache), length left)

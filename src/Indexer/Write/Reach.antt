-- ===== src/Indexer/Write/Reach.antt =====
-- backend/internal/indexer/write.go: every index that the transactions lead to, in whatever order.
use rongo.Prelude.{ℕ, ◌≡◌, refl, sym, ◌∙◌, some, List, [], map, Text}
use mathlib.Core.Path.{subst}
use mathlib.Core.List.{map-map}
use rongo.Prelude.Fallible.{Outcome, Outcome-map}
use rongo.Indexer.Chunk.Regions.{CodeSymbol}
use rongo.Indexer.Chunk.Assemble.{Chunk}
use rongo.Indexer.Write.Schema.{ChunkRow, Token, FileInfo, Tables, Limits}
use rongo.Indexer.Write.{replace_file, record_skipped, delete_file, delete_files_not_in}
use rongo.Indexer.Write.InStep.{Joined, IsInStep, IsKeyed, IsUnique, vec_of, fts_of}
use rongo.Indexer.Write.Upsert.{IsAccepted}
use rongo.Indexer.Write.Skips.{record_skipped_lem}
use rongo.Indexer.Write.Deletes.{delete_file_lem}
use rongo.Indexer.Write.Retire.{delete_files_not_in_lem}
use rongo.Indexer.Write.Replace.{IsReplaced, IsWritable, replaced, replace_file_lem}

-- The tables of a new database.
abbrev pub no_tables : {V : Type 0} → Tables V
no_tables = record {
  files = [];
  chunks = [];
  vec = [];
  fts = [];
  symbols = [];
  tokens = [];
  last_file = 0;
  last_chunk = 0;
}

-- One transaction that is committed.
pub data IsCommit {V : Type 0} (lim : Limits V) : Tables V → Tables V → Type 0 where
  by_replace :
      (i : FileInfo) (cs : List Chunk) (vs : List V) (syms : List CodeSymbol) (toks : List Token)
      {db db' : Tables V}
      → replace_file lim i cs vs syms toks db ≡ some db'
      → IsCommit lim db db'
  by_skip :
      (i : FileInfo) (reason : Text) {db db' : Tables V}
      → record_skipped lim i reason db ≡ some db'
      → IsCommit lim db db'
  by_delete : (repo path : Text) {db : Tables V} → IsCommit lim db (delete_file repo path db)
  by_retire :
      (repo : Text) (keep : List Text) {db : Tables V}
      → IsCommit lim db (delete_files_not_in repo keep db)

pub data IsReachable {V : Type 0} (lim : Limits V) : Tables V → Type 0 where
  at_first : IsReachable lim no_tables
  and_then : {db db' : Tables V} → IsReachable lim db → IsCommit lim db db' → IsReachable lim db'

-- The three tables of chunks have the same rows, and no file or chunk stands twice.
pub record IsAligned {V : Type 0} (db : Tables V) : Type 0 where
  pub vec_ids : map (λ (r : ℕ × V). r.0) db.vec ≡ map (λ (c : ChunkRow). c.id) db.chunks
  pub fts_ids : map (λ (r : ℕ × Text). r.0) db.fts ≡ map (λ (c : ChunkRow). c.id) db.chunks
  pub keyed : IsKeyed db.chunks
  pub unique : IsUnique db.files

module _ {V : Type 0} where
  pub first-IsInStep : IsInStep {V = V} no_tables
  first-IsInStep = record {
    rows = [];
    chunks = refl;
    vec = refl;
    fts = refl;
    keyed = tt;
    within = tt;
    unique = tt;
    files_within = tt;
  }

  module _ (lim : Limits V) where
    replace-IsInStep :
        (i : FileInfo) (cs : List Chunk) (vs : List V) (syms : List CodeSymbol) (toks : List Token)
        (db db' : Tables V)
        → replace_file lim i cs vs syms toks db ≡ some db'
        → IsInStep db
        → IsInStep db'
    replace-IsInStep i cs vs syms toks db db' e h =
        let done : IsWritable lim i cs vs db × IsReplaced i (replaced i cs vs syms toks) db db' =
          subst
            (Outcome (¬ IsWritable lim i cs vs db)
              (λ d. IsWritable lim i cs vs db × IsReplaced i (replaced i cs vs syms toks) db d))
            e (replace_file_lem lim i cs vs syms toks db h) in
        done.1.step

    skip-IsInStep :
        (i : FileInfo) (reason : Text) (db db' : Tables V)
        → record_skipped lim i reason db ≡ some db'
        → IsInStep db
        → IsInStep db'
    skip-IsInStep i reason db db' e h = subst (Outcome (¬ IsAccepted lim i db) IsInStep) e (
        Outcome-map (¬ IsAccepted lim i db) (record_skipped lim i reason db) (λ d k. k.0)
          (record_skipped_lem lim i reason db h))

    commit-IsInStep : {db db' : Tables V} → IsCommit lim db db' → IsInStep db → IsInStep db'
    commit-IsInStep (by_replace i cs vs syms toks {db} e) h =
        replace-IsInStep i cs vs syms toks db _ e h
    commit-IsInStep (by_skip i reason {db} e) h = skip-IsInStep i reason db _ e h
    commit-IsInStep (by_delete repo path {db}) h = (delete_file_lem repo path db h).0
    commit-IsInStep (by_retire repo keep {db}) h = (delete_files_not_in_lem repo keep db h).0

    pub reachable-IsInStep : {db : Tables V} → IsReachable lim db → IsInStep db
    reachable-IsInStep at_first = first-IsInStep
    reachable-IsInStep (and_then r c) = commit-IsInStep c (reachable-IsInStep r)

  aligned : (db : Tables V) → IsInStep db → IsAligned db
  aligned db h = record {
    vec_ids =
        rw (h.vec, h.chunks)
          (map-map _ vec_of h.rows ∙ sym (map-map _ (λ (r : Joined V). r.0) h.rows));
    fts_ids =
        rw (h.fts, h.chunks)
          (map-map _ fts_of h.rows ∙ sym (map-map _ (λ (r : Joined V). r.0) h.rows));
    keyed = rw h.chunks h.keyed;
    unique = h.unique;
  }

  -- In every index that committed calls of ReplaceFile, RecordSkipped, DeleteFile and DeleteFilesNotIn lead to
  -- from the empty tables, in any order, chunks_vec and chunks_fts have the ids of chunks, in the same order,
  -- no two chunks have the same id, and no two files the same id or the same repository and path.
  pub reachable-IsAligned : (lim : Limits V) (db : Tables V) → IsReachable lim db → IsAligned db
  reachable-IsAligned lim db r = aligned db (reachable-IsInStep lim r)

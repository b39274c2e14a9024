-- ===== src/Indexer/Write/Kept.antt =====
-- backend/internal/indexer/write.go: what a transaction leaves as it was, file by file, and what the
-- index then says of a path.
use rongo.Prelude.{
  ℕ, ◌≡◌, refl, sym, ap, ◌∙◌, inl, inr, Bool, true, false, not, ◌&&◌, some, List, [], map, Text,
  filter, ◌==◌, ==_iff, Bool-cases, arith,
}
use rongo.Prelude.Filters.{filter-filter, filter_ext, filter_none, All_of}
use rongo.Indexer.Write.Schema.{FileRow, SymbolRow, Token, TokenRow, FileInfo, Tables, find_file}
use rongo.Indexer.Write.{clear_files}
use rongo.Indexer.Write.InStep.{Joined, IsInStep, clear_files_step}
use rongo.Indexer.Write.Upsert.{IsRow, find_cases}
use rongo.Indexer.Write.View.{
  Stored, Named, Entry, symbols_of, tokens_of, chunks_of, entry_of, entry_at, view, full, rows_of,
  chunks_of_rows,
}

id_cleared : (mine : ℕ → Bool) (id n : ℕ) → mine id ≡ true → (not (mine n) && n == id) ≡ false
id_cleared mine id n h = elim (Bool-cases (n == id)) [
  | inl t ↦ rw ((==_iff n id).0 t, h) refl
  | inr f ↦ ground (arith, f)
]

id_spared : (mine : ℕ → Bool) (id n : ℕ) → mine id ≡ false → (not (mine n) && n == id) ≡ (n == id)
id_spared mine id n h = elim (Bool-cases (n == id)) [
  | inl t ↦ rw ((==_iff n id).0 t, h) refl
  | inr f ↦ ground (arith, f)
]

module _ {ℓ} {A : Type ℓ} (key : A → ℕ) where
  abbrev pub at_id : ℕ → List A → List A
  at_id id xs = filter (λ x. key x == id) xs

  pub cleared_self :
      (mine : ℕ → Bool) (id : ℕ) (xs : List A)
      → mine id ≡ true
      → at_id id (filter (λ x. not (mine (key x))) xs) ≡ []
  cleared_self mine id xs h =
      filter-filter (λ x. key x == id) (λ x. not (mine (key x))) xs
      ∙ filter_none _ xs (All_of xs (λ x. id_cleared mine id (key x) h))

  pub cleared_other :
      (mine : ℕ → Bool) (id : ℕ) (xs : List A)
      → mine id ≡ false
      → at_id id (filter (λ x. not (mine (key x))) xs) ≡ at_id id xs
  cleared_other mine id xs h =
      filter-filter (λ x. key x == id) (λ x. not (mine (key x))) xs
      ∙ filter_ext _ _ xs (All_of xs (λ x. id_spared mine id (key x) h))

module _ {V : Type 0} where
  -- A transaction leaves all that is stored under an id.
  pub record IsKept (db db' : Tables V) (h : IsInStep db) (h' : IsInStep db') (id : ℕ)
      : Type 0 where
    pub rows : rows_of id h'.rows ≡ rows_of id h.rows
    pub symbols : symbols_of id db'.symbols ≡ symbols_of id db.symbols
    pub tokens : tokens_of id db'.tokens ≡ tokens_of id db.tokens

  pub kept_then :
      (db1 db2 db3 : Tables V) (h1 : IsInStep db1) (h2 : IsInStep db2) (h3 : IsInStep db3) (id : ℕ)
      → IsKept db1 db2 h1 h2 id
      → IsKept db2 db3 h2 h3 id
      → IsKept db1 db3 h1 h3 id
  kept_then db1 db2 db3 h1 h2 h3 id k l = record {
    rows = l.rows ∙ k.rows;
    symbols = l.symbols ∙ k.symbols;
    tokens = l.tokens ∙ k.tokens;
  }

  pub clear-IsKept :
      (mine : ℕ → Bool) (db : Tables V) (h : IsInStep db) (id : ℕ)
      → mine id ≡ false
      → IsKept db (clear_files mine db) h (clear_files_step mine db h).0 id
  unfolding clear_files
  clear-IsKept mine db h id n = record {
    rows =
        ap (rows_of id) (clear_files_step mine db h).1
        ∙ cleared_other (λ (r : Joined V). r.0.file_id) mine id h.rows n;
    symbols = ap (map _) (cleared_other (λ (s : SymbolRow). s.file_id) mine id db.symbols n);
    tokens = ap (map _) (cleared_other (λ (t : TokenRow). t.file_id) mine id db.tokens n);
  }

  -- Nothing is stored under an id.
  pub record IsBare (db : Tables V) (h : IsInStep db) (id : ℕ) : Type 0 where
    pub rows : rows_of id h.rows ≡ []
    pub symbols : symbols_of id db.symbols ≡ []
    pub tokens : tokens_of id db.tokens ≡ []

  pub clear-IsBare :
      (mine : ℕ → Bool) (db : Tables V) (h : IsInStep db) (id : ℕ)
      → mine id ≡ true
      → IsBare (clear_files mine db) (clear_files_step mine db h).0 id
  unfolding clear_files
  clear-IsBare mine db h id t = record {
    rows =
        ap (rows_of id) (clear_files_step mine db h).1
        ∙ cleared_self (λ (r : Joined V). r.0.file_id) mine id h.rows t;
    symbols = ap (map _) (cleared_self (λ (s : SymbolRow). s.file_id) mine id db.symbols t);
    tokens = ap (map _) (cleared_self (λ (t : TokenRow). t.file_id) mine id db.tokens t);
  }

  pub view_kept :
      (db db' : Tables V) (h : IsInStep db) (h' : IsInStep db') (r p : Text)
      → find_file r p db'.files ≡ find_file r p db.files
      → ((f : FileRow) → find_file r p db.files ≡ some f → IsKept db db' h h' f.id)
      → view db' r p ≡ view db r p
  unfolding view entry_at entry_of
  view_kept db db' h h' r p e k = elim (find_cases (find_file r p db.files)) [
    | inl n ↦ rw (view, e, n) refl
    | inr (f, found) ↦
        let kept = k f found in
        let chunks : chunks_of f.id db' ≡ chunks_of f.id db =
          chunks_of_rows f.id db' h' ∙ ap (map full) kept.rows ∙ sym (chunks_of_rows f.id db h) in
        rw (view, e, found, entry_of, chunks, kept.symbols, kept.tokens) refl
  ]

  -- The entry of a file with what the caller says of it.
  abbrev pub entry_for : FileInfo → Text → List (Stored V) → List Named → List Token → Entry V
  entry_for i z cs ss ts = record {
    sha = i.sha;
    lang = i.lang;
    size = i.size;
    skip_reason = z;
    chunks = cs;
    symbols = ss;
    tokens = ts;
  }

  pub view_row :
      (i : FileInfo) (z : Text) (db : Tables V) (h : IsInStep db) (f : FileRow) (r p : Text)
      → find_file r p db.files ≡ some f
      → IsRow i z f
      → view db r p
        ≡ some (
            entry_for i z
              (map full (rows_of f.id h.rows))
              (symbols_of f.id db.symbols)
              (tokens_of f.id db.tokens))
  unfolding view entry_at entry_of
  view_row i z db h f r p found said =
      rw
        (
          view,
          found,
          entry_of,
          chunks_of_rows f.id db h,
          said.sha,
          said.lang,
          said.size,
          said.reason,
        )
        refl

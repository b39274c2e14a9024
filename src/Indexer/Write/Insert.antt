-- ===== src/Indexer/Write/Insert.antt =====
-- backend/internal/indexer/write.go: the loop of ReplaceFile over the chunks of a file, which ends unless
-- a constraint of the tables refuses a chunk.
use rongo.Prelude.{
  ℕ, suc, ◌≡◌, ◌≢◌, refl, sym, ap, ◌∙◌, inl, inr, true, false, not, ◌||◌, some, List, [], ◌∷◌, ◌++◌,
  map, ◌==◌, ==_iff, Bool-cases, All, arith, length,
}
use mathlib.Core.Bool.{true≢false}
use mathlib.Core.List.{map-append, append-nil, append_assoc}
use rongo.Prelude.Fallible.{Outcome, Outcome-imp}
use rongo.Prelude.Filters.{filter-append}
use rongo.Indexer.Chunk.Assemble.{Chunk}
use rongo.Indexer.Write.Schema.{ChunkRow, Tables, Limits, chunk_row, has_ordinal, unsearchable}
use rongo.Indexer.Write.{with_chunk, insert_chunk, insert_chunks}
use rongo.Indexer.Write.InStep.{IsInStep, with_chunk_step}
use rongo.Indexer.Write.View.{Stored, full, rows_of}
use rongo.Indexer.Write.Kept.{IsKept, kept_then}

-- The tables take the chunks of a file: the ordinals differ, and a chunk with a text can be searched.
abbrev pub IsStorable : List Chunk → Type 0
IsStorable [] = Unit
IsStorable (c ∷ cs) =
    (unsearchable c ≡ false) × All (λ (d : Chunk). c.ordinal ≢ d.ordinal) cs × IsStorable cs

-- No row of the file has the ordinal of one of the chunks.
abbrev pub IsFree : ℕ → List ChunkRow → List Chunk → Type 0
IsFree file rows cs = All (λ (c : Chunk). has_ordinal file c.ordinal rows ≡ false) cs

has_ordinal-append :
    (file id n : ℕ) (rows : List ChunkRow) (c : Chunk)
    → has_ordinal file n (rows ++ chunk_row id file c ∷ [])
      ≡ (has_ordinal file n rows || c.ordinal == n)
unfolding has_ordinal
has_ordinal-append file id n [] c = ground arith
has_ordinal-append file id n (x ∷ rows) c = rw (has_ordinal-append file id n rows c) (ground arith)

IsFree-append :
    (file id : ℕ) (rows : List ChunkRow) (c : Chunk) (cs : List Chunk)
    → IsFree file rows cs
    → All (λ (d : Chunk). c.ordinal ≢ d.ordinal) cs
    → IsFree file (rows ++ chunk_row id file c ∷ []) cs
IsFree-append file id rows c [] h k = tt
IsFree-append file id rows c (d ∷ cs) h k = (
  rw (has_ordinal-append file id d.ordinal rows c) (ground (arith, h.0, k.0)),
  IsFree-append file id rows c cs h.1 k.1,
)

IsFree_before :
    (file id : ℕ) (rows : List ChunkRow) (c : Chunk) (cs : List Chunk)
    → IsFree file (rows ++ chunk_row id file c ∷ []) cs
    → IsFree file rows cs × All (λ (d : Chunk). c.ordinal ≢ d.ordinal) cs
IsFree_before file id rows c [] h = (tt, tt)
IsFree_before file id rows c (d ∷ cs) h =
    let e : (has_ordinal file d.ordinal rows || c.ordinal == d.ordinal) ≡ false =
      sym (has_ordinal-append file id d.ordinal rows c) ∙ h.0 in
    let rest = IsFree_before file id rows c cs h.1 in
    ((ground (arith, e), rest.0), ((λ q. ground (arith, e, q)), rest.1))

module _ {V : Type 0} where
  -- A chunk as it is to be stored.
  abbrev pub stored_chunk : Chunk → V → Stored V
  stored_chunk c v = record {
    ordinal = c.ordinal;
    start_line = c.start_line;
    end_line = c.end_line;
    symbol = c.symbol;
    raw_text = c.raw_text;
    content_hash = c.content_hash;
    vector = some v;
    search_text = some c.search_text;
  }

  abbrev pub stored_chunks : List Chunk → List V → List (Stored V)
  stored_chunks [] vs = []
  stored_chunks (c ∷ cs) [] = []
  stored_chunks (c ∷ cs) (v ∷ vs) = stored_chunk c v ∷ stored_chunks cs vs

  -- The chunks are stored after the others of the file, and all else is as it was.
  pub record IsInsert (file : ℕ) (cs : List Chunk) (vs : List V) (db db' : Tables V)
      (h : IsInStep db) : Type 0 where
    pub step : IsInStep db'
    pub added :
        map full (rows_of file step.rows) ≡ map full (rows_of file h.rows) ++ stored_chunks cs vs
    pub kept : (id : ℕ) → (file == id) ≡ false → IsKept db db' h step id
    pub files : db'.files ≡ db.files
    pub symbols : db'.symbols ≡ db.symbols
    pub tokens : db'.tokens ≡ db.tokens
    pub free : IsFree file db.chunks cs
    pub storable : IsStorable cs

  row_added :
      (file : ℕ) (c : Chunk) (v : V) (db : Tables V) (h : IsInStep db)
      → map full (rows_of file (with_chunk_step file c v db h).0.rows)
        ≡ map full (rows_of file h.rows) ++ stored_chunk c v ∷ []
  row_added file c v db h =
      let e = (with_chunk_step file c v db h).1 in
      ap (λ rows. map full (rows_of file rows)) e
      ∙ ap (map full) (filter-append _ h.rows _)
      ∙ rw ((==_iff file file).1 refl) (map-append full (rows_of file h.rows) _)

  row-IsKept :
      (file : ℕ) (c : Chunk) (v : V) (db : Tables V) (h : IsInStep db) (id : ℕ)
      → (file == id) ≡ false
      → IsKept db (with_chunk file c v db) h (with_chunk_step file c v db h).0 id
  unfolding with_chunk
  row-IsKept file c v db h id n = record {
    rows =
        ap (rows_of id) (with_chunk_step file c v db h).1
        ∙ filter-append _ h.rows _
        ∙ rw n (append-nil (rows_of id h.rows));
    symbols = refl;
    tokens = refl;
  }

  one-IsInsert :
      (file : ℕ) (c : Chunk) (cs : List Chunk) (v : V) (vs : List V) (db db' : Tables V)
      (h : IsInStep db)
      → has_ordinal file c.ordinal db.chunks ≡ false
      → unsearchable c ≡ false
      → IsInsert file cs vs (with_chunk file c v db) db' (with_chunk_step file c v db h).0
      → IsInsert file (c ∷ cs) (v ∷ vs) db db' h
  unfolding with_chunk
  one-IsInsert file c cs v vs db db' h n m k =
      let free = IsFree_before file (suc db.last_chunk) db.chunks c cs k.free in
      record {
        step = k.step;
        added =
            k.added
            ∙ ap (λ l. l ++ stored_chunks cs vs) (row_added file c v db h)
            ∙ append_assoc (map full (rows_of file h.rows)) (stored_chunk c v ∷ [])
                (stored_chunks cs vs);
        kept =
            λ id d. kept_then db _ db' h _ k.step id (row-IsKept file c v db h id d) (k.kept id d);
        files = k.files;
        symbols = k.symbols;
        tokens = k.tokens;
        free = (n, free.0);
        storable = (m, free.1, k.storable);
      }

  none-IsInsert :
      (file : ℕ) (db : Tables V) (h : IsInStep db) (vs : List V) → IsInsert file [] vs db db h
  none-IsInsert file db h vs = record {
    step = h;
    added = sym (append-nil (map full (rows_of file h.rows)));
    kept = λ id d. record { rows = refl; symbols = refl; tokens = refl };
    files = refl;
    symbols = refl;
    tokens = refl;
    free = tt;
    storable = tt;
  }

  taken :
      (file : ℕ) (c : Chunk) (cs : List Chunk) (v : V) (db : Tables V)
      → IsFree file db.chunks cs
      → All (λ (d : Chunk). c.ordinal ≢ d.ordinal) cs
      → IsFree file (with_chunk file c v db).chunks cs
  unfolding with_chunk
  taken file c cs v db h k = IsFree-append file (suc db.last_chunk) db.chunks c cs h k

  -- The vectors have the width of `chunks_vec`.
  abbrev pub AreWide : Limits V → List V → Type 0
  AreWide lim vs = All (λ (v : V). lim.is_wide v ≡ true) vs

  pub insert_chunks_lem :
      (lim : Limits V) (file : ℕ) (cs : List Chunk) (vs : List V) (db : Tables V) (h : IsInStep db)
      → length cs ≡ length vs
      → Outcome
          (¬ (IsFree file db.chunks cs × IsStorable cs × AreWide lim vs))
          (λ db'. AreWide lim vs × IsInsert file cs vs db db' h)
          (insert_chunks lim file cs vs db)
  unfolding insert_chunks insert_chunk
  insert_chunks_lem lim file [] [] db h e = (tt, none-IsInsert file db h [])
  insert_chunks_lem lim file [] (v ∷ vs) db h e = absurd (omega (arith, e))
  insert_chunks_lem lim file (c ∷ cs) [] db h e = absurd (omega (arith, e))
  insert_chunks_lem lim file (c ∷ cs) (v ∷ vs) db h e =
      elim (Bool-cases (has_ordinal file c.ordinal db.chunks)) [
        | inl t ↦ rw (insert_chunk, t) (λ k. true≢false k.0.0)
        | inr n ↦ elim (Bool-cases (unsearchable c)) [
          | inl t ↦ rw (insert_chunk, n, t) (λ k. true≢false k.1.0)
          | inr m ↦ elim (Bool-cases (lim.is_wide v)) [
            | inr f ↦
                let stop : (has_ordinal file c.ordinal db.chunks
                      || unsearchable c
                      || not (lim.is_wide v))
                    ≡ true =
                  rw (n, m, f) refl in
                rw (insert_chunk, stop) (λ k. true≢false (sym k.2.0 ∙ f))
            | inl w ↦
                let go : (has_ordinal file c.ordinal db.chunks
                      || unsearchable c
                      || not (lim.is_wide v))
                    ≡ false =
                  rw (n, m, w) refl in
                rw (insert_chunk, go)
                  (Outcome-imp (insert_chunks lim file cs vs (with_chunk file c v db))
                    (λ k p. k (taken file c cs v db p.0.1 p.1.1, p.1.2, p.2.1))
                    (λ db' k. ((w, k.0), one-IsInsert file c cs v vs db db' h n m k.1))
                    (insert_chunks_lem lim file cs vs (with_chunk file c v db)
                      (with_chunk_step file c v db h).0 (omega (arith, e))))
          ]
        ]
      ]

-- ===== src/Indexer/Write/View.antt =====
-- backend/internal/indexer/write.go: what the tables say of a path, as the retriever joins them, and what
-- the rows of the index have to do with it.
use rongo.Prelude.{
  ℕ, ◌≡◌, ◌≢◌, refl, ap, ◌∙◌, Option, none, some, List, [], ◌∷◌, map, Text, filter, ◌==◌, All,
  arith, if◌then◌else◌,
}
use mathlib.Core.List.{map-map}
use rongo.Prelude.Filters.{filter-map, All-filter, All-map}
use rongo.Indexer.Write.Schema.{FileRow, ChunkRow, SymbolRow, Token, TokenRow, Tables, find_file}
use rongo.Indexer.Write.InStep.{Joined, IsInStep, IsKeyed, chunks_in, vec_of, fts_of}

-- A chunk of a file, with its vector and its searchable text if the mirrors have them.
pub record Stored (V : Type 0) : Type 0 where
  pub ordinal : ℕ
  pub start_line : ℕ
  pub end_line : ℕ
  pub symbol : Text
  pub raw_text : Text
  pub content_hash : Text
  pub vector : Option V
  pub search_text : Option Text

pub record Named : Type 0 where
  pub name : Text
  pub kind : Text
  pub line : ℕ
  pub scope : Text

-- All that the index holds of a file.
pub record Entry (V : Type 0) : Type 0 where
  pub sha : Text
  pub lang : Text
  pub size : ℕ
  pub skip_reason : Text
  pub chunks : List (Stored V)
  pub symbols : List Named
  pub tokens : List Token

unfoldable pub lookup_id {ℓ} : {A : Type ℓ} → ℕ → List (ℕ × A) → Option A
lookup_id n [] = none
lookup_id n ((id, a) ∷ rows) = let rest = lookup_id n rows in if n == id then some a else rest

abbrev pub named : SymbolRow → Named
named s = record { name = s.name; kind = s.kind; line = s.line; scope = s.scope }

abbrev pub symbols_of : ℕ → List SymbolRow → List Named
symbols_of id rows = map named (filter (λ (s : SymbolRow). s.file_id == id) rows)

abbrev pub tokens_of : ℕ → List TokenRow → List Token
tokens_of id rows =
    map (λ (t : TokenRow). t.token) (filter (λ (t : TokenRow). t.file_id == id) rows)

module _ {V : Type 0} where
  abbrev pub stored_as : ChunkRow → Option V → Option Text → Stored V
  stored_as c v t = record {
    ordinal = c.ordinal;
    start_line = c.start_line;
    end_line = c.end_line;
    symbol = c.symbol;
    raw_text = c.raw_text;
    content_hash = c.content_hash;
    vector = v;
    search_text = t;
  }

  unfoldable pub stored : List (ℕ × V) → List (ℕ × Text) → ChunkRow → Stored V
  stored vec fts c = stored_as c (lookup_id c.id vec) (lookup_id c.id fts)

  -- The chunks of a file, each joined with its mirrors by rowid.
  unfoldable pub chunks_of : ℕ → Tables V → List (Stored V)
  chunks_of id db =
      map (stored db.vec db.fts) (filter (λ (c : ChunkRow). c.file_id == id) db.chunks)

  abbrev pub entry_with : FileRow → List (Stored V) → List Named → List Token → Entry V
  entry_with f cs ss ts = record {
    sha = f.sha;
    lang = f.lang;
    size = f.size;
    skip_reason = f.skip_reason;
    chunks = cs;
    symbols = ss;
    tokens = ts;
  }

  unfoldable pub entry_of : Tables V → FileRow → Entry V
  entry_of db f =
      entry_with f (chunks_of f.id db) (symbols_of f.id db.symbols) (tokens_of f.id db.tokens)

  unfoldable pub entry_at : Tables V → Option FileRow → Option (Entry V)
  entry_at db none = none
  entry_at db (some f) = some (entry_of db f)

  -- What the index says of a path.
  unfoldable pub view : Tables V → Text → Text → Option (Entry V)
  view db repo path = entry_at db (find_file repo path db.files)

  abbrev pub full : Joined V → Stored V
  full r = stored_as r.0 (some r.1) (some r.2)

  -- The rows of one file.
  abbrev pub rows_of : ℕ → List (Joined V) → List (Joined V)
  rows_of id rows = filter (λ (r : Joined V). r.0.file_id == id) rows

module _ {ℓ} {V : Type 0} {A : Type ℓ} (f : Joined V → A) where
  abbrev column : List (Joined V) → List (ℕ × A)
  column rows = map (λ (r : Joined V). (r.0.id, f r)) rows

  lookup_later :
      (x : Joined V) (col : List (ℕ × A)) (rows : List (Joined V))
      → All (λ (d : ChunkRow). x.0.id ≢ d.id) (chunks_in rows)
      → All (λ (r : Joined V). lookup_id r.0.id col ≡ some (f r)) rows
      → All (λ (r : Joined V). lookup_id r.0.id ((x.0.id, f x) ∷ col) ≡ some (f r)) rows
  unfolding lookup_id
  lookup_later x col [] h k = tt
  lookup_later x col (r ∷ rows) h k = (ground (arith, h.0, k.0), lookup_later x col rows h.1 k.1)

  lookup_rows :
      (rows : List (Joined V))
      → IsKeyed (chunks_in rows)
      → All (λ (r : Joined V). lookup_id r.0.id (column rows) ≡ some (f r)) rows
  unfolding lookup_id
  lookup_rows [] h = tt
  lookup_rows (x ∷ rows) h =
      (ground arith, lookup_later x (column rows) rows h.0 (lookup_rows rows h.1))

map_ext {ℓ κ} :
    {A : Type ℓ} {B : Type κ} (f g : A → B) (xs : List A)
    → All (λ x. f x ≡ g x) xs
    → map f xs ≡ map g xs
map_ext f g [] h = refl
map_ext f g (x ∷ xs) h = rw h.0 (ap (λ l. g x ∷ l) (map_ext f g xs h.1))

All_two {ℓ} :
    {A : Type ℓ} (P Q : A → Type 0) (xs : List A) → All P xs → All Q xs → All (λ x. P x × Q x) xs
All_two P Q [] h k = tt
All_two P Q (x ∷ xs) h k = ((h.0, k.0), All_two P Q xs h.1 k.1)

module _ {V : Type 0} where
  -- The chunks of a file are its rows: no mirror lacks one.
  pub chunks_of_rows :
      (id : ℕ) (db : Tables V) (h : IsInStep db) → chunks_of id db ≡ map full (rows_of id h.rows)
  unfolding chunks_of stored
  chunks_of_rows id db h =
      let rows = rows_of id h.rows in
      let both : All (λ (r : Joined V). stored (map vec_of h.rows) (map fts_of h.rows) r.0 ≡ full r)
          h.rows =
        All-map h.rows (λ r e. rw e.0 (rw e.1 refl))
          (All_two _ _ h.rows (lookup_rows (λ (r : Joined V). r.1) h.rows h.keyed)
            (lookup_rows (λ (r : Joined V). r.2) h.rows h.keyed)) in
      rw (h.chunks, h.vec, h.fts)
        (ap (map (stored (map vec_of h.rows) (map fts_of h.rows)))
            (filter-map (λ (c : ChunkRow). c.file_id == id) (λ (r : Joined V). r.0) h.rows)
          ∙ map-map _ _ rows
          ∙ map_ext _ full rows (All-filter _ _ h.rows both))

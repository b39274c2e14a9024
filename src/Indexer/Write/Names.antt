-- ===== src/Indexer/Write/Names.antt =====
-- backend/internal/indexer/write.go: the names and the reference tokens that ReplaceFile stores after the
-- chunks.
use rongo.Prelude.{
  ℕ, ◌≡◌, refl, ap, ◌∙◌, inl, inr, false, List, [], ◌∷◌, ◌++◌, map, ◌==◌, ==_iff, Bool-cases, All,
}
use mathlib.Core.List.{map-append, map-map, map-id, append-nil}
use rongo.Prelude.Filters.{filter-append, filter_all, filter_none}
use rongo.Indexer.Chunk.Regions.{CodeSymbol}
use rongo.Indexer.Write.Schema.{
  SymbolRow, Token, TokenRow, Tables, has_ordinal, symbol_row, token_row,
}
use rongo.Indexer.Write.InStep.{Joined, IsInStep, chunks_in}
use rongo.Indexer.Write.View.{Named, named, symbols_of, tokens_of, rows_of}
use rongo.Indexer.Write.Kept.{IsKept, at_id}

module _ {ℓ κ} {A : Type ℓ} {B : Type κ} (key : A → ℕ) (make : B → A) where
  pub all_made : (P : A → Type 0) (bs : List B) → ((b : B) → P (make b)) → All P (map make bs)
  all_made P [] h = tt
  all_made P (b ∷ bs) h = (h b, all_made P bs h)

  -- New rows of a file stand after its old ones, and no other file has them.
  pub added_self :
      (id : ℕ) (xs : List A) (bs : List B)
      → ((b : B) → key (make b) ≡ id)
      → at_id key id (xs ++ map make bs) ≡ at_id key id xs ++ map make bs
  added_self id xs bs h =
      filter-append _ xs (map make bs)
      ∙ ap (λ l. at_id key id xs ++ l)
          (filter_all (λ x. key x == id) (map make bs)
            (all_made _ bs (λ b. rw (h b) ((==_iff id id).1 refl))))

  pub added_other :
      (id n : ℕ) (xs : List A) (bs : List B)
      → ((b : B) → key (make b) ≡ id)
      → (id == n) ≡ false
      → at_id key n (xs ++ map make bs) ≡ at_id key n xs
  added_other id n xs bs h d =
      filter-append _ xs (map make bs)
      ∙ ap (λ l. at_id key n xs ++ l)
          (filter_none (λ x. key x == n) (map make bs) (all_made _ bs (λ b. rw (h b) d)))
      ∙ append-nil (at_id key n xs)

pub free_of :
    {V : Type 0} (file n : ℕ) (rows : List (Joined V))
    → rows_of file rows ≡ []
    → has_ordinal file n (chunks_in rows) ≡ false
unfolding has_ordinal
free_of file n [] h = refl
free_of file n (x ∷ rows) h = elim (Bool-cases (x.0.file_id == file)) [
  | inl t ↦ absurd (cc (rw t at h))
  | inr f ↦ rw f (free_of file n rows (rw f at h))
]

-- The names of the definitions among the symbols.
abbrev pub named_symbols : List CodeSymbol → List Named
named_symbols syms =
    map
      (λ (s : CodeSymbol). record { name = s.name; kind = s.kind; line = s.line; scope = s.scope })
      syms

module _ {V : Type 0} where
  -- The writes after the loop.
  abbrev pub with_names : ℕ → List CodeSymbol → List Token → Tables V → Tables V
  with_names file syms toks db = record db {
    symbols = db.symbols ++ map (symbol_row file) syms;
    tokens = db.tokens ++ map (token_row file) toks;
  }

  pub names_step :
      (file : ℕ) (syms : List CodeSymbol) (toks : List Token) (db : Tables V)
      → IsInStep db
      → IsInStep (with_names file syms toks db)
  names_step file syms toks db h = record {
    rows = h.rows;
    chunks = h.chunks;
    vec = h.vec;
    fts = h.fts;
    keyed = h.keyed;
    within = h.within;
    unique = h.unique;
    files_within = h.files_within;
  }

  pub names_rows :
      (file : ℕ) (syms : List CodeSymbol) (toks : List Token) (db : Tables V) (h : IsInStep db)
      → (names_step file syms toks db h).rows ≡ h.rows
  unfolding names_step
  names_rows file syms toks db h = refl

  pub names-IsKept :
      (file : ℕ) (syms : List CodeSymbol) (toks : List Token) (db : Tables V) (h : IsInStep db)
      (id : ℕ)
      → (file == id) ≡ false
      → IsKept db (with_names file syms toks db) h (names_step file syms toks db h) id
  unfolding names_step
  names-IsKept file syms toks db h id d = record {
    rows = refl;
    symbols = ap (map named) (
        added_other (λ (s : SymbolRow). s.file_id) (symbol_row file) file id db.symbols syms
          (λ b. refl) d);
    tokens = ap (map (λ (t : TokenRow). t.token)) (
        added_other (λ (t : TokenRow). t.file_id) (token_row file) file id db.tokens toks
          (λ b. refl) d);
  }

  pub names_symbols :
      (file : ℕ) (syms : List CodeSymbol) (toks : List Token) (db : Tables V)
      → symbols_of file (with_names file syms toks db).symbols
        ≡ symbols_of file db.symbols ++ named_symbols syms
  names_symbols file syms toks db =
      ap (map named) (
        added_self (λ (s : SymbolRow). s.file_id) (symbol_row file) file db.symbols syms
          (λ b. refl))
      ∙ map-append named _ (map (symbol_row file) syms)
      ∙ ap (λ l. symbols_of file db.symbols ++ l) (map-map named (symbol_row file) syms)

  pub names_tokens :
      (file : ℕ) (syms : List CodeSymbol) (toks : List Token) (db : Tables V)
      → tokens_of file (with_names file syms toks db).tokens ≡ tokens_of file db.tokens ++ toks
  names_tokens file syms toks db =
      ap (map _)
        (added_self (λ (t : TokenRow). t.file_id) (token_row file) file db.tokens toks (λ b. refl))
      ∙ map-append (λ (t : TokenRow). t.token) _ (map (token_row file) toks)
      ∙ ap (λ l. tokens_of file db.tokens ++ l) (map-map _ (token_row file) toks ∙ map-id toks)

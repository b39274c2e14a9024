-- ===== src/Indexer/Write/InStep.antt =====
-- backend/internal/indexer/write.go: the rows that chunks, chunks_vec and chunks_fts share, and the statements
-- that add or delete them.
use rongo.Prelude.{
  ℕ, suc, ◌≤◌, ◌≡◌, ◌≢◌, refl, sym, ap, ◌∙◌, inl, inr, Bool, false, not, List, [], ◌∷◌, ◌++◌, map,
  Text, filter, id_in, ◌==◌, Bool-cases, All, All-append, arith,
}
use mathlib.Core.List.{map-append}
use rongo.Prelude.Filters.{
  filter-map, filter-filter, filter_ext, filter_all, All-filter, All-map, All_of,
}
use rongo.Indexer.Chunk.Assemble.{Chunk}
use rongo.Indexer.Write.Schema.{FileRow, ChunkRow, Tables, at_key, owned, chunk_row}
use rongo.Indexer.Write.{delete_vec_rows, clear_files, with_chunk}

-- A chunk with its vector and its searchable text.
abbrev pub Joined : Type 0 → Type 0
Joined V = ChunkRow × V × Text

-- No id stands twice.
abbrev pub IsKeyed : List ChunkRow → Type 0
IsKeyed [] = Unit
IsKeyed (c ∷ cs) = All (λ (d : ChunkRow). c.id ≢ d.id) cs × IsKeyed cs

-- No two files have the same id, or the same repository and path.
abbrev pub IsUnique : List FileRow → Type 0
IsUnique [] = Unit
IsUnique (f ∷ fs) =
    All (λ (g : FileRow). (f.id ≢ g.id) × (at_key f.repo f.path g ≡ false)) fs × IsUnique fs

module _ {V : Type 0} where
  abbrev pub vec_of : Joined V → ℕ × V
  vec_of r = (r.0.id, r.1)

  abbrev pub fts_of : Joined V → ℕ × Text
  fts_of r = (r.0.id, r.2)

  abbrev pub chunks_in : List (Joined V) → List ChunkRow
  chunks_in rows = map (λ (r : Joined V). r.0) rows

  -- The invariant of the index.
  pub record IsInStep (db : Tables V) : Type 0 where
    pub rows : List (Joined V)
    pub chunks : db.chunks ≡ chunks_in rows
    pub vec : db.vec ≡ map vec_of rows
    pub fts : db.fts ≡ map fts_of rows
    pub keyed : IsKeyed (chunks_in rows)
    pub within : All (λ (c : ChunkRow). c.id ≤ db.last_chunk) (chunks_in rows)
    pub unique : IsUnique db.files
    pub files_within : All (λ (f : FileRow). f.id ≤ db.last_file) db.files

  delete_vec_rows_lem :
      (ids : List ℕ) (rows : List (ℕ × V))
      → delete_vec_rows ids rows ≡ filter (λ (r : ℕ × V). not (id_in r.0 ids)) rows
  unfolding delete_vec_rows id_in
  delete_vec_rows_lem [] rows =
      sym (filter_all (λ (r : ℕ × V). not (id_in r.0 [])) rows (All_of rows (λ r. refl)))
  delete_vec_rows_lem (id ∷ ids) rows =
      delete_vec_rows_lem ids (filter (λ (r : ℕ × V). not (r.0 == id)) rows)
      ∙ filter-filter (λ (r : ℕ × V). not (id_in r.0 ids)) (λ (r : ℕ × V). not (r.0 == id)) rows
      ∙ filter_ext _ _ rows (All_of rows (λ r. ground arith))

owned_other :
    (mine : ℕ → Bool) (n : ℕ) (cs : List ChunkRow)
    → All (λ (d : ChunkRow). n ≢ d.id) cs
    → id_in n (owned mine cs) ≡ false
unfolding owned id_in
owned_other mine n [] h = refl
owned_other mine n (c ∷ cs) h = elim (Bool-cases (mine c.file_id)) [
  | inl t ↦ rw (owned, t) (ground (arith, h.0, owned_other mine n cs h.1))
  | inr f ↦ rw (owned, f) (owned_other mine n cs h.1)
]

owned_more :
    (mine : ℕ → Bool) (c : ChunkRow) (cs ds : List ChunkRow)
    → All (λ (d : ChunkRow). c.id ≢ d.id) ds
    → All (λ (d : ChunkRow). id_in d.id (owned mine cs) ≡ mine d.file_id) ds
    → All (λ (d : ChunkRow). id_in d.id (owned mine (c ∷ cs)) ≡ mine d.file_id) ds
unfolding owned id_in
owned_more mine c cs [] h k = tt
owned_more mine c cs (d ∷ ds) h k = (
  elim (Bool-cases (mine c.file_id)) [
    | inl t ↦ rw (owned, t) (ground (arith, h.0, k.0))
    | inr f ↦ rw (owned, f) k.0
  ],
  owned_more mine c cs ds h.1 k.1,
)

-- The owned ids are those of the chunks of the files, and of no other chunk.
owned_exact :
    (mine : ℕ → Bool) (cs : List ChunkRow)
    → IsKeyed cs
    → All (λ (d : ChunkRow). id_in d.id (owned mine cs) ≡ mine d.file_id) cs
unfolding owned id_in
owned_exact mine [] h = tt
owned_exact mine (c ∷ cs) h = (
  elim (Bool-cases (mine c.file_id)) [
    | inl t ↦ rw (owned, t) (ground arith)
    | inr f ↦ rw (owned, f) (owned_other mine c.id cs h.0)
  ],
  owned_more mine c cs cs h.0 (owned_exact mine cs h.1),
)

All_at {ℓ κ ι} :
    {A : Type ℓ} {B : Type κ} (P : B → Type ι) (f : A → B) (xs : List A)
    → All P (map f xs)
    → All (λ x. P (f x)) xs
All_at P f [] h = tt
All_at P f (x ∷ xs) h = (h.0, All_at P f xs h.1)

IsKeyed-filter : (q : ChunkRow → Bool) (cs : List ChunkRow) → IsKeyed cs → IsKeyed (filter q cs)
IsKeyed-filter q [] h = tt
IsKeyed-filter q (c ∷ cs) h = elim (Bool-cases (q c)) [
  | inl t ↦ rw t (All-filter (λ (d : ChunkRow). c.id ≢ d.id) q cs h.0, IsKeyed-filter q cs h.1)
  | inr f ↦ rw f (IsKeyed-filter q cs h.1)
]

IsKeyed-append :
    (cs : List ChunkRow) (d : ChunkRow)
    → IsKeyed cs
    → All (λ (c : ChunkRow). c.id ≢ d.id) cs
    → IsKeyed (cs ++ d ∷ [])
IsKeyed-append [] d h k = (tt, tt)
IsKeyed-append (c ∷ cs) d h k = (
  All-append (λ (e : ChunkRow). c.id ≢ e.id) cs (d ∷ []) h.0 (k.0, tt),
  IsKeyed-append cs d h.1 k.1,
)

fresh_id :
    (n : ℕ) (cs : List ChunkRow)
    → All (λ (c : ChunkRow). c.id ≤ n) cs
    → All (λ (c : ChunkRow). c.id ≢ suc n) cs
fresh_id n [] h = tt
fresh_id n (c ∷ cs) h = ((λ e. omega (arith, e, h.0)), fresh_id n cs h.1)

module _ {V : Type 0} where
  -- The rows of other files.
  abbrev pub spared : (ℕ → Bool) → List (Joined V) → List (Joined V)
  spared mine rows = filter (λ (r : Joined V). not (mine r.0.file_id)) rows

  spared_ids :
      (mine : ℕ → Bool) (rows : List (Joined V))
      → IsKeyed (chunks_in rows)
      → filter (λ (r : Joined V). not (id_in r.0.id (owned mine (chunks_in rows)))) rows
        ≡ spared mine rows
  spared_ids mine rows h = filter_ext _ _ rows (
      All-map rows (λ r e. ap not e)
        (All_at (λ (d : ChunkRow). id_in d.id (owned mine (chunks_in rows)) ≡ mine d.file_id)
          (λ (r : Joined V). r.0) rows (owned_exact mine (chunks_in rows) h)))

  -- Clearing some files leaves the rows of the others.
  pub clear_files_step :
      (mine : ℕ → Bool) (db : Tables V) (h : IsInStep db)
      → (h' : IsInStep (clear_files mine db)) × (h'.rows ≡ spared mine h.rows)
  unfolding clear_files
  clear_files_step mine db h =
      let to_rows = λ (cs : List ChunkRow). filter (λ (c : ChunkRow). not (mine c.file_id)) cs in
      let chunks : to_rows (chunks_in h.rows) ≡ chunks_in (spared mine h.rows) =
        filter-map (λ (c : ChunkRow). not (mine c.file_id)) (λ (r : Joined V). r.0) h.rows in
      (
        record {
          rows = spared mine h.rows;
          chunks = ap to_rows h.chunks ∙ chunks;
          vec =
              rw (h.chunks, h.vec)
                (delete_vec_rows_lem (owned mine (chunks_in h.rows)) (map vec_of h.rows)
                  ∙ filter-map _ vec_of h.rows
                  ∙ ap (map vec_of) (spared_ids mine h.rows h.keyed));
          fts =
              rw (h.chunks, h.fts)
                (filter-map _ fts_of h.rows ∙ ap (map fts_of) (spared_ids mine h.rows h.keyed));
          keyed = rw (← chunks) (IsKeyed-filter _ (chunks_in h.rows) h.keyed);
          within = rw (← chunks) (All-filter _ _ (chunks_in h.rows) h.within);
          unique = h.unique;
          files_within = h.files_within;
        },
        refl,
      )

  -- A chunk is inserted into the three tables at once.
  pub with_chunk_step :
      (file : ℕ) (c : Chunk) (v : V) (db : Tables V) (h : IsInStep db)
      → (h' : IsInStep (with_chunk file c v db)) × (h'.rows
          ≡ h.rows ++ (chunk_row (suc db.last_chunk) file c, v, c.search_text) ∷ [])
  unfolding with_chunk
  with_chunk_step file c v db h =
      let row = chunk_row (suc db.last_chunk) file c in
      let last : List (Joined V) = (row, v, c.search_text) ∷ [] in
      let chunks : chunks_in (h.rows ++ last) ≡ chunks_in h.rows ++ row ∷ [] =
        map-append _ h.rows last in
      (
        record {
          rows = h.rows ++ last;
          chunks = ap (λ cs. cs ++ row ∷ []) h.chunks ∙ sym chunks;
          vec =
              ap (λ l. l ++ vec_of (row, v, c.search_text) ∷ []) h.vec
              ∙ sym (map-append vec_of h.rows last);
          fts =
              ap (λ l. l ++ fts_of (row, v, c.search_text) ∷ []) h.fts
              ∙ sym (map-append fts_of h.rows last);
          keyed = rw chunks (
              IsKeyed-append (chunks_in h.rows) row h.keyed
                (fresh_id db.last_chunk (chunks_in h.rows) h.within));
          within = rw chunks (
              All-append (λ (d : ChunkRow). d.id ≤ suc db.last_chunk) (chunks_in h.rows) (row ∷ [])
                (All-map (chunks_in h.rows) (λ d k. omega (arith, k)) h.within) (omega arith, tt));
          unique = h.unique;
          files_within = h.files_within;
        },
        refl,
      )

-- ===== src/Indexer/Pipeline/Numbering.antt =====
-- backend/internal/indexer: what ChunkFile (chunk.go) makes, under the constraints of ReplaceFile (write.go).
use rongo.Prelude.{
  suc, ◌<◌, ◌≡◌, ◌≢◌, refl, inl, inr, Bool, true, false, not, ◌&&◌, List, [], ◌∷◌, ◌++◌, Text,
  text_eq, trim_space, Bool-cases, All, All-append, arith, if◌then◌else◌, length,
}
use mathlib.Core.Bool.{true≢false}
use rongo.Prelude.Filters.{All-map}
use rongo.Indexer.Chunk.Windows.{Span}
use rongo.Indexer.Chunk.Regions.{CodeSymbol, Region}
use rongo.Indexer.Chunk.Kinds.{diagram_kind}
use rongo.Indexer.Chunk.Assemble.{
  Chunk, RawOptions, SourceFile, chunk_of, is_blank, strip_comments, add_parts, add_window,
  add_windows, add_region, add_regions, chunk_file, raw_of,
}
use rongo.Indexer.Write.Schema.{unsearchable}
use rongo.Indexer.Write.Insert.{IsStorable}

-- The chunks so far are storable and numbered below their count.
abbrev IsNumbered : List Chunk → Type 0
IsNumbered out = IsStorable out × All (λ (c : Chunk). c.ordinal < length out) out

IsStorable-append :
    (out : List Chunk) (c : Chunk)
    → IsStorable out
    → All (λ (d : Chunk). d.ordinal < c.ordinal) out
    → unsearchable c ≡ false
    → IsStorable (out ++ c ∷ [])
IsStorable-append [] c s h u = (u, tt, tt)
IsStorable-append (d ∷ out) c s h u = (
  s.0,
  All-append (λ (e : Chunk). d.ordinal ≢ e.ordinal) out (c ∷ []) s.1
      ((λ e. omega (arith, h.0, e)), tt),
  IsStorable-append out c s.2 h.1 u,
)

length-snoc : (out : List Chunk) (c : Chunk) → length (out ++ c ∷ []) ≡ suc (length out)
length-snoc [] c = refl
length-snoc (d ∷ out) c = rw (length-snoc out c) refl

IsNumbered-append :
    (out : List Chunk) (c : Chunk)
    → IsNumbered out
    → c.ordinal ≡ length out
    → unsearchable c ≡ false
    → IsNumbered (out ++ c ∷ [])
IsNumbered-append out c (s, n) e u = (
  IsStorable-append out c s (rw e n) u,
  rw (length-snoc out c) (
      All-append (λ (d : Chunk). d.ordinal < suc (length out)) out (c ∷ [])
        (All-map out (λ d k. omega (arith, k)) n) (omega (arith, e), tt)),
)

blank_empty : (s : Text) → is_blank s ≡ false → text_eq s [] ≡ false
unfolding is_blank trim_space
blank_empty [] h = absurd (true≢false h)
blank_empty (c ∷ s) h = refl

searched :
    (strip : Bool) (s part : Text)
    → (strip && is_blank (if strip then s else part)) ≡ false
    → (text_eq (if strip then s else part) [] && not (text_eq part [])) ≡ false
searched true s part h = rw (blank_empty s h) refl
searched false s part h = ground arith

module _ (hash : Text → Text) (f : SourceFile) where
  add_parts-IsNumbered :
      (r : Region) (w : Span) (parts : List Text) (out : List Chunk)
      → IsNumbered out
      → IsNumbered (add_parts hash f r w parts out)
  unfolding add_parts chunk_of
  add_parts-IsNumbered r w [] out h = h
  add_parts-IsNumbered r w (part ∷ parts) out h =
      let search = if f.opts.strip_comments then strip_comments f.path part else part in
      add_parts-IsNumbered r w parts _
        (elim (Bool-cases (f.opts.strip_comments && is_blank search)) [
          | inl t ↦ rw t h
          | inr n ↦ rw n (
              IsNumbered-append out (chunk_of hash f r w part search (length out)) h refl
                (searched f.opts.strip_comments (strip_comments f.path part) part n))
        ])

  add_window-IsNumbered :
      (r : Region) (w : Span) (out : List Chunk)
      → IsNumbered out
      → IsNumbered (add_window hash f r w out)
  unfolding add_window
  add_window-IsNumbered r w out h = elim (Bool-cases (is_blank (raw_of f.lines w))) [
    | inl t ↦ rw t h
    | inr n ↦ rw n (add_parts-IsNumbered r w _ out h)
  ]

  add_windows-IsNumbered :
      (r : Region) (ws : List Span) (out : List Chunk)
      → IsNumbered out
      → IsNumbered (add_windows hash f r ws out)
  unfolding add_windows
  add_windows-IsNumbered r [] out h = h
  add_windows-IsNumbered r (w ∷ ws) out h =
      add_windows-IsNumbered r ws _ (add_window-IsNumbered r w out h)

  add_region-IsNumbered :
      (r : Region) (out : List Chunk) → IsNumbered out → IsNumbered (add_region hash f r out)
  unfolding add_region
  add_region-IsNumbered r out h = elim (Bool-cases (text_eq r.sym.kind diagram_kind)) [
    | inl t ↦ rw t h
    | inr n ↦ rw n (add_windows-IsNumbered r _ out h)
  ]

  add_regions-IsNumbered :
      (rs : List Region) (out : List Chunk)
      → IsNumbered out
      → IsNumbered (add_regions hash f rs out)
  unfolding add_regions
  add_regions-IsNumbered [] out h = h
  add_regions-IsNumbered (r ∷ rs) out h =
      add_regions-IsNumbered rs _ (add_region-IsNumbered r out h)

-- The chunks that ChunkFile makes of a file, whatever its symbols and options, have different ordinals, and
-- each with a text has something to search: neither the key of the table nor the check for text refuses
-- them.
pub chunk_file-IsStorable :
    (hash : Text → Text) (repo path body : Text) (syms : List CodeSymbol) (o : RawOptions)
    → IsStorable (chunk_file hash repo path body syms o)
unfolding chunk_file
chunk_file-IsStorable hash repo path body syms o = elim (Bool-cases (is_blank body)) [
  | inl t ↦ rw t tt
  | inr n ↦ rw n (add_regions-IsNumbered hash _ _ [] (tt, tt)).0
]

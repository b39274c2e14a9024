-- ===== src/Indexer/Chunk/Keep.antt =====
-- The loops of `ChunkFile` of chunk.go only add chunks.
use mathlib.Core.List.{Memᴰ}
use mathlib.Core.List.Memᴰ
use rongo.Prelude.{
  ℕ, ◌≤◌, ◌≡◌, refl, Bool, true, false, ◌&&◌, inl, inr, List, [], ◌∷◌, ◌++◌, Text, text_eq,
  Bool-cases, if◌then◌else◌,
}
use rongo.Indexer.Chunk.Windows.{Span}
use rongo.Indexer.Chunk.Regions.{Region}
use rongo.Indexer.Chunk.Kinds.{diagram_kind}
use rongo.Indexer.Chunk.Assemble.{
  Chunk, is_blank, raw_of, SourceFile, add_parts, add_window, add_windows, add_region, add_regions,
}

abbrev pub InChunk : ℕ → Chunk → Type 0
InChunk i c = (c.start_line ≤ i) × (i ≤ c.end_line)

-- Some chunk of the list holds line `i`.
abbrev pub Holds : ℕ → List Chunk → Type 0
Holds i out = (c : Chunk) × Memᴰ c out × InChunk i c

Holds-append : (i : ℕ) (out later : List Chunk) → Holds i out → Holds i (out ++ later)
Holds-append i out later (c, m, h) = (c, Memᴰ.append_left later m, h)

Holds-snoc : (i : ℕ) (out : List Chunk) (c : Chunk) → InChunk i c → Holds i (out ++ c ∷ [])
Holds-snoc i out c h = (c, Memᴰ.append_right out (Memᴰ.head refl), h)

Holds-if :
    (i : ℕ) (b : Bool) (out : List Chunk) (c : Chunk)
    → Holds i out
    → Holds i (if b then out else out ++ c ∷ [])
Holds-if i true out c h = h
Holds-if i false out c h = Holds-append i out (c ∷ []) h

pub Holds-unstripped :
    (i : ℕ) (b blank : Bool) (out : List Chunk) (c : Chunk)
    → b ≡ false
    → InChunk i c
    → Holds i (if b && blank then out else out ++ c ∷ [])
Holds-unstripped i true blank out c e h = cc
Holds-unstripped i false blank out c e h = Holds-snoc i out c h

module _ (hash : Text → Text) (f : SourceFile) (i : ℕ) where
  -- No loop removes a chunk.
  pub parts_keep :
      (r : Region) (w : Span) (parts : List Text) (out : List Chunk)
      → Holds i out
      → Holds i (add_parts hash f r w parts out)
  unfolding add_parts
  parts_keep r w [] out h = h
  parts_keep r w (part ∷ parts) out h = parts_keep r w parts _ (Holds-if i _ out _ h)

  window_keeps :
      (r : Region) (w : Span) (out : List Chunk) → Holds i out → Holds i (add_window hash f r w out)
  unfolding add_window
  window_keeps r w out h = elim (Bool-cases (is_blank (raw_of f.lines w))) [
    | inl t ↦ rw t h
    | inr n ↦ rw n (parts_keep r w _ out h)
  ]

  pub windows_keep :
      (r : Region) (ws : List Span) (out : List Chunk)
      → Holds i out
      → Holds i (add_windows hash f r ws out)
  unfolding add_windows
  windows_keep r [] out h = h
  windows_keep r (w ∷ ws) out h = windows_keep r ws _ (window_keeps r w out h)

  region_keeps : (r : Region) (out : List Chunk) → Holds i out → Holds i (add_region hash f r out)
  unfolding add_region
  region_keeps r out h = elim (Bool-cases (text_eq r.sym.kind diagram_kind)) [
    | inl t ↦ rw t h
    | inr n ↦ rw n (windows_keep r _ out h)
  ]

  pub regions_keep :
      (rs : List Region) (out : List Chunk) → Holds i out → Holds i (add_regions hash f rs out)
  unfolding add_regions
  regions_keep [] out h = h
  regions_keep (r ∷ rs) out h = regions_keep rs _ (region_keeps r out h)

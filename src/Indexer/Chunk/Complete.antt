-- ===== src/Indexer/Chunk/Complete.antt =====
-- `ChunkFile` of chunk.go leaves no line out: every line that is not blank stands in a chunk, unless
-- it lies in the diagram block of a process model.
use mathlib.Core.List.{Memᴰ, flatten}
use mathlib.Core.Path.{subst}
use native.Mathlib.Decide.{dec_le}
use native.Mathlib.Nat.{zero-add, suc-add}
use rongo.Prelude.{
  ℕ, zero, suc, ◌+◌, ◌-◌, ◌≤◌, ◌<◌, ◌≡◌, ◌≢◌, refl, ap, true, false, ◌⊎◌, inl, inr, List, [], ◌∷◌,
  Text, arith, text_eq, trim_space, trim_left, Bool-cases, length, get_or, take, drop,
}
use rongo.Indexer.Chunk.Windows.{Span, windows, split_overlong_line}
use rongo.Indexer.Chunk.Cover.{IsCover, last, more, windows-IsCover}
use rongo.Indexer.Chunk.Pieces.{split_overlong_line_lem}
use rongo.Indexer.Chunk.Regions.{CodeSymbol, Region, symbol_regions}
use rongo.Indexer.Chunk.Partition.{IsPartition, done, next, symbol_regions-IsPartition}
use rongo.Indexer.Chunk.Kinds.{diagram_kind, anchor_kind}
use rongo.Indexer.Chunk.Assemble.{
  Chunk, RawOptions, normalise, is_blank, raw_of, SourceFile, chunk_of, add_parts, add_window,
  add_windows, add_region, add_regions, lines_of, chunk_file,
}
use rongo.Indexer.Chunk.Keep.{Holds, Holds-unstripped, parts_keep, windows_keep, regions_keep}
use rongo.Indexer.Chunk.Blank.{is_blank-join, is_blank-lines_of}

-- Line `i` lies in the region, the window or the chunk.
abbrev InRegion : ℕ → Region → Type 0
InRegion i r = (r.start ≤ i) × (i ≤ r.end)

abbrev InSpan : ℕ → Span → Type 0
InSpan i w = (w.start ≤ i) × (i ≤ w.end)

region_at :
    {hi from : ℕ} {rs : List Region} (i : ℕ)
    → IsPartition hi from rs
    → from ≤ i
    → i ≤ hi
    → (r : Region) × Memᴰ r rs × (from ≤ r.start) × InRegion i r
region_at i (done e) low high = absurd (omega arith)
region_at i (next {from = from} {end = end} {sym = s} a b rest) low high = elim (dec_le i end) [
  | yes h ↦ (record { start = from; end = end; sym = s }, Memᴰ.head refl, omega arith, (low, h))
  | no n ↦
      let (r, m, s, h) = region_at i rest (omega arith) high in (r, Memᴰ.tail m, omega arith, h)
]

window_at :
    {to from : ℕ} {ws : List Span} (i : ℕ)
    → IsCover to from ws
    → from ≤ i
    → i ≤ to
    → (w : Span) × Memᴰ w ws × (from ≤ w.start) × InSpan i w
window_at i (last {from = from} {end = end} a e) low high =
    (record { start = from; end = end }, Memᴰ.head refl, omega arith, (low, omega arith))
window_at i (more {from = from} {end = end} a b c d rest) low high = elim (dec_le i end) [
  | yes h ↦ (record { start = from; end = end }, Memᴰ.head refl, omega arith, (low, h))
  | no n ↦
      let (w, m, s, h) = window_at i rest (omega arith) high in (w, Memᴰ.tail m, omega arith, h)
]

split-ne-nil :
    (raw : Text) (max : ℕ) → 0 < max → is_blank raw ≡ false → split_overlong_line raw max ≢ []
unfolding is_blank flatten trim_space trim_left
split-ne-nil [] max pos b e = cc
split-ne-nil (c ∷ raw) max pos b e =
    cc ((split_overlong_line_lem (c ∷ raw) max pos).0, ap flatten e)

get_or-take : (n k : ℕ) (ts : List Text) → n < k → get_or (take k ts) n [] ≡ get_or ts n []
get_or-take n zero ts h = absurd (omega arith)
get_or-take n (suc k) [] h = refl
get_or-take zero (suc k) (t ∷ ts) h = refl
get_or-take (suc n) (suc k) (t ∷ ts) h = get_or-take n k ts (omega arith)

get_or-drop : (m n : ℕ) (ts : List Text) → get_or (drop m ts) n [] ≡ get_or ts (m + n) []
get_or-drop zero n ts = rw zero-add refl
get_or-drop (suc m) n [] = refl
get_or-drop (suc m) n (t ∷ ts) = rw suc-add (get_or-drop m n ts)

module _ (hash : Text → Text) (f : SourceFile) (i : ℕ)
    (unstripped : f.opts.strip_comments ≡ false) where
  parts_hold :
      (r : Region) (w : Span) (parts : List Text) (out : List Chunk)
      → InSpan i w
      → parts ≢ []
      → Holds i (add_parts hash f r w parts out)
  unfolding add_parts chunk_of
  parts_hold r w [] out h n = absurd (n refl)
  parts_hold r w (part ∷ parts) out h n =
      parts_keep hash f i r w parts _ (Holds-unstripped i _ _ out _ unstripped h)

  window-Holds :
      (r : Region) (w : Span) (out : List Chunk)
      → InSpan i w
      → is_blank (raw_of f.lines w) ≡ false
      → 0 < f.opts.max_tokens
      → Holds i (add_window hash f r w out)
  unfolding add_window
  window-Holds r w out h b pos =
      rw b (parts_hold r w _ out h (split-ne-nil (raw_of f.lines w) f.opts.max_tokens pos b))

  windows_hold :
      (r : Region) (ws : List Span) (out : List Chunk) (w : Span)
      → Memᴰ w ws
      → InSpan i w
      → is_blank (raw_of f.lines w) ≡ false
      → 0 < f.opts.max_tokens
      → Holds i (add_windows hash f r ws out)
  unfolding add_windows
  windows_hold r [] out w m h b pos = elim m [ ]
  windows_hold r (v ∷ ws) out w (Memᴰ.head e) h b pos = windows_keep hash f i r ws _ (
      window-Holds r v out (subst (InSpan i) e h)
        (subst (λ u. is_blank (raw_of f.lines u) ≡ false) e b) pos)
  windows_hold r (v ∷ ws) out w (Memᴰ.tail m) h b pos =
      windows_hold r ws (add_window hash f r v out) w m h b pos

  window_not_blank :
      (w : Span)
      → 0 < w.start
      → InSpan i w
      → is_blank (get_or f.lines (i - 1) []) ≡ false
      → is_blank (raw_of f.lines w) ≡ false
  unfolding raw_of
  window_not_blank w pos h b =
      let n : ℕ = i - w.start in
      let k : ℕ = w.end + 1 - w.start in
      let at : w.start - 1 + n ≡ i - 1 = omega arith in
      is_blank-join (take k (drop (w.start - 1) f.lines)) n (
        rw
          (
            get_or-take n k (drop (w.start - 1) f.lines) (omega arith),
            get_or-drop (w.start - 1) n f.lines,
            at,
          )
          b)

  region-Holds :
      (r : Region) (out : List Chunk)
      → 0 < r.start
      → InRegion i r
      → text_eq r.sym.kind diagram_kind ≡ false
      → is_blank (get_or f.lines (i - 1) []) ≡ false
      → 0 < f.opts.max_tokens
      → Holds i (add_region hash f r out)
  unfolding add_region
  region-Holds r out first h d b pos =
      let (w, m, s, k) =
        window_at i (windows-IsCover f.lines f.opts r.start r.end (omega arith)) h.0 h.1 in
      rw d (
        windows_hold r (windows f.lines r.start r.end f.opts) out w m k
          (window_not_blank w (omega arith) k b) pos)

  regions_hold :
      (rs : List Region) (out : List Chunk) (r : Region)
      → Memᴰ r rs
      → 0 < r.start
      → InRegion i r
      → text_eq r.sym.kind diagram_kind ≡ false
      → is_blank (get_or f.lines (i - 1) []) ≡ false
      → 0 < f.opts.max_tokens
      → Holds i (add_regions hash f rs out)
  unfolding add_regions
  regions_hold [] out r m first h d b pos = elim m [ ]
  regions_hold (q ∷ rs) out r (Memᴰ.head e) first h d b pos =
      regions_keep hash f i rs _
        (subst (λ u. Holds i (add_region hash f u out)) e (region-Holds r out first h d b pos))
  regions_hold (q ∷ rs) out r (Memᴰ.tail m) first h d b pos =
      regions_hold rs (add_region hash f q out) r m first h d b pos

normalise_pos : (o : RawOptions) → 0 < (normalise o).max_tokens
unfolding normalise
normalise_pos o = ground arith

-- Line `i` lies in a diagram block.
abbrev pub InDiagram : ℕ → List Region → Type 0
InDiagram i rs = (r : Region) × Memᴰ r rs × InRegion i r × (text_eq r.sym.kind diagram_kind ≡ true)

length-pos : (ts : List Text) (i : ℕ) → 0 < i → i ≤ length ts → 0 < length ts
length-pos ts i h k = omega arith

module _ (hash : Text → Text) (repo path body : Text) (syms : List CodeSymbol)
    (o : RawOptions) where
  -- Where comments are not stripped, every line of a body that is not blank lies in a chunk of
  -- `chunk_file`, or in the region of a diagram symbol.
  pub chunk_file_complete :
      (i : ℕ)
      → (normalise o).strip_comments ≡ false
      → 0 < i
      → i ≤ length (lines_of body)
      → is_blank (get_or (lines_of body) (i - 1) []) ≡ false
      → Holds i (chunk_file hash repo path body syms o)
        ⊎ InDiagram i (symbol_regions (lines_of body) syms (anchor_kind path))
  unfolding chunk_file
  chunk_file_complete i unstripped pos high b = elim (Bool-cases (is_blank body)) [
    | inl t ↦ cc (is_blank-lines_of body (i - 1) t)
    | inr n ↦
        let lines = lines_of body in
        let rs = symbol_regions lines syms (anchor_kind path) in
        let f : SourceFile = record {
          repo = repo;
          path = path;
          lines = lines;
          opts = normalise o;
        } in
        let parts =
          symbol_regions-IsPartition lines syms (anchor_kind path) (length-pos lines i pos high) in
        let (r, m, first, h) = region_at i parts pos high in
        elim (Bool-cases (text_eq r.sym.kind diagram_kind)) [
          | inl d ↦ inr (r, m, h, d)
          | inr d ↦ inl (
              rw n
                (regions_hold hash f i unstripped rs [] r m (omega arith) h d b (normalise_pos o)))
        ]
  ]

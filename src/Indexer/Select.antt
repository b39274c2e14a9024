-- ===== src/Indexer/Select.antt =====
-- backend/internal/indexer/select.go: which files are worth indexing, and the reason for each one
-- that is not.
pub mod Names
pub mod Globs
pub mod Early
pub mod Safe
mod Tests
use rongo.Prelude.{
  ℕ, zero, suc, ◌+◌, ◌≤◌, Bool, true, false, not, ◌&&◌, ◌||◌, Option, none, some, List, [], ◌∷◌,
  ◌++◌, map, Text, codes, take, text_eq, text_in, has_prefix, has_suffix, split_on, join, lower,
  ext, base, itoa, length, drop, ltb, leb, ◌==◌, if◌then◌else◌,
}
use mathlib.Core.List.{reverse}
use rongo.Indexer.Select.Names.{
  vendored_dirs, catalogue_dirs, catalogue_exts, generated_files, generated_suffixes, data_exts,
  sized_data_exts, schema_exts, manifest_files, exempt_suffixes, generated_dirs,
}
use rongo.Indexer.Select.Globs.{match_segments}

-- `Decision`
pub data Decision : Type 0 where
  include : Decision
  skip_vendored : Decision
  skip_generated : Decision
  skip_binary : Decision
  skip_too_large : Decision
  skip_secret : Decision
  skip_excluded : Decision
  skip_data : Decision
  skip_empty : Decision

pub record SelectOptions : Type 0 where
  pub max_bytes : ℕ
  pub max_data_bytes : ℕ
  pub max_schema_bytes : ℕ
  pub exclude : List Text

unfoldable pub default_select_options : SelectOptions
default_select_options = record {
  max_bytes = 1048576;
  max_data_bytes = 8192;
  max_schema_bytes = 262144;
  exclude = [];
}

abbrev pub or_default : ℕ → ℕ → ℕ
or_default n d = if n == 0 then d else n

-- `NewSelector`; the patterns are split where they are matched.
unfoldable pub new_selector : SelectOptions → SelectOptions
unfolding default_select_options
new_selector o =
    let d = default_select_options in
    record {
      max_bytes = or_default o.max_bytes d.max_bytes;
      max_data_bytes = or_default o.max_data_bytes d.max_data_bytes;
      max_schema_bytes = or_default o.max_schema_bytes d.max_schema_bytes;
      exclude = o.exclude;
    }

-- `path.Clean`, with the segments that are kept so far, the last one first.
unfoldable pub clean_segments : Bool → List Text → List Text → List Text
clean_segments rooted kept [] = reverse kept
clean_segments rooted [] (s ∷ segs) =
    let skip = clean_segments rooted [] segs in
    let keep = clean_segments rooted (s ∷ []) segs in
    if text_eq s [] || text_eq s (codes ".") || (rooted && text_eq s (codes ".."))
    then skip
    else keep
clean_segments rooted (k ∷ kept) (s ∷ segs) =
    let skip = clean_segments rooted (k ∷ kept) segs in
    let keep = clean_segments rooted (s ∷ k ∷ kept) segs in
    let pop = clean_segments rooted kept segs in
    if text_eq s [] || text_eq s (codes ".")
    then skip
    else if text_eq s (codes "..") && not (text_eq k (codes ".."))
    then pop
    else keep

unfoldable pub clean : Text → Text
unfolding clean_segments split_on join
clean p =
    let rooted = has_prefix p (codes "/") in
    let rest = join (clean_segments rooted [] (split_on b'/' p)) (codes "/") in
    if rooted then b'/' ∷ rest else if text_eq rest [] then codes "." else rest

unfoldable pub segments_of : Text → List Text
unfolding clean split_on
segments_of p = split_on b'/' (clean p)

-- `segmentIn`
unfoldable pub segment_in : List Text → List Text → Text
unfolding text_in
segment_in dirs [] = []
segment_in dirs (s ∷ segs) = let rest = segment_in dirs segs in if text_in s dirs then s else rest

unfoldable pub vendored_segment : Text → Text
unfolding segment_in segments_of
vendored_segment p = segment_in vendored_dirs (segments_of p)

unfoldable pub catalogue_segment : Text → Text
unfolding segment_in segments_of
catalogue_segment p = segment_in catalogue_dirs (segments_of p)

unfoldable pub holds_of : Text → List (Text × Text) → Option Text
holds_of s [] = none
holds_of s ((dir, holds) ∷ dirs) =
    let rest = holds_of s dirs in if text_eq s dir then some holds else rest

-- `generatedSegment`, `none` for no segment.
unfoldable pub generated_segment : List Text → Option (Text × Text)
unfolding holds_of
generated_segment [] = none
generated_segment (s ∷ segs) =
    let rest = generated_segment segs in
    elim (holds_of s generated_dirs) [ some holds ↦ some (s, holds) | none ↦ rest ]

-- `[-_.]`
abbrev pub is_joint : ℕ → Bool
is_joint c = (c == b'-') || (c == b'_') || (c == b'.')

abbrev ends_word : Text → Bool
ends_word [] = true
ends_word (c ∷ s) = is_joint c

-- `generatedName`, on a name in lower case. The first argument says that a word may begin here.
unfoldable pub generated_name : Bool → Text → Bool
generated_name joint [] = false
generated_name joint (c ∷ s) =
    let rest = generated_name (is_joint c) s in
    let here = joint && has_prefix (c ∷ s) (codes "generated") && ends_word (drop 9 (c ∷ s)) in
    here || rest

unfoldable pub suffix_of : Text → List Text → Option Text
suffix_of s [] = none
suffix_of s (p ∷ ps) = let rest = suffix_of s ps in if has_suffix s p then some p else rest

-- `generatedByName`: why a path is generated, empty if it is not.
unfoldable pub generated_by_name : Text → Text
unfolding generated_segment segments_of catalogue_segment generated_name suffix_of text_in base ext
generated_by_name p =
    let name = base p in
    let low = map lower name in
    let catalogue = catalogue_segment p in
    if text_in name generated_files
      || has_suffix low (codes ".lock")
      || has_suffix low (codes ".sum")
    then codes "is a lock file"
    else if has_suffix low (codes ".min.js") || has_suffix low (codes ".min.css")
    then codes "is minified"
    else elim (generated_segment (segments_of p)) [
      | some (seg, holds) ↦ codes "lives under " ++ (seg ++ (codes "/, which holds " ++ holds))
      | none ↦
          if not (text_eq catalogue []) && text_in (map lower (ext name)) catalogue_exts
          then codes "is a translation catalogue under " ++ (catalogue ++ codes "/")
          else if generated_name true low
          then codes "is named generated"
          else elim (suffix_of low generated_suffixes) [
            | some suf ↦ codes "carries the generator suffix " ++ suf
            | none ↦ []
          ]
    ]

unfoldable pub is_some : Option Text → Bool
is_some none = false
is_some (some s) = true

-- `isManifest`
unfoldable pub is_manifest : Text → Bool
unfolding text_in suffix_of is_some
is_manifest name =
    let low = map lower name in
    text_in name manifest_files
    || ((has_prefix low (codes "tsconfig") || has_prefix low (codes "appsettings."))
        && has_suffix low (codes ".json"))
    || is_some (suffix_of low exempt_suffixes)

unfoldable pub above : ℕ → Text → Text → ℕ → Text
unfolding itoa
above size kind ceiling max =
    itoa size
    ++ (codes " bytes of "
        ++ (drop 1 kind
            ++ (codes ", above the " ++ (ceiling ++ (codes " ceiling of " ++ itoa max)))))

-- `dataReason`: why a path is data, empty if it is not.
unfoldable pub data_reason : Text → (size max_data max_schema : ℕ) → Text
unfolding base ext text_in is_manifest above
data_reason p size max_data max_schema =
    let name = base p in
    let kind = map lower (ext name) in
    if text_in kind data_exts
    then codes "is a data file (" ++ (kind ++ codes ")")
    else if text_in kind schema_exts
    then (if leb size max_schema then [] else above size kind (codes "schema") max_schema)
    else if not (text_in kind sized_data_exts) || leb size max_data || is_manifest name
    then []
    else above size kind (codes "data") max_data

abbrev pub Verdict : Type 0
Verdict = Decision × Text

-- What the selector asks of the package redact, of `path.Match`, and of the expression
-- `generatedMarker`.
pub record Readers : Type 0 where
  pub matches : Text → Text → Bool
  pub secret_manifest : Text → Text → Bool
  pub redact : Text → Text → Text
  pub match_secret : Text → Text
  pub is_config_path : Text → Bool
  pub generated_marker : Text → Bool

abbrev too_large_detail : Text
too_large_detail = codes "larger than the configured ceiling; skipped whole rather than truncated"

unfoldable pub is_include : Decision → Bool
is_include include = true
is_include _ = false

-- `isBinary`
unfoldable pub is_binary : Text → Bool
is_binary [] = false
is_binary (c ∷ s) = c == 0 || is_binary s

module _ (a : Readers) (o : SelectOptions) where
  unfoldable pub excluded_from : List Text → List Text → Option Text
  unfolding match_segments split_on
  excluded_from segs [] = none
  excluded_from segs (pat ∷ pats) =
      let rest = excluded_from segs pats in
      if match_segments a.matches (split_on b'/' pat) segs then some pat else rest

  unfoldable pub excluded : Text → Option Text
  unfolding excluded_from segments_of
  excluded p = excluded_from (segments_of p) o.exclude

  -- `SelectPath`; `none` is `decided == false`.
  unfoldable pub select_path : Text → Option Verdict
  unfolding excluded vendored_segment generated_by_name
  select_path p = elim (excluded p) [
    | some pat ↦ some (skip_excluded, codes "matches exclusion pattern " ++ pat)
    | none ↦
        if not (text_eq (vendored_segment p) [])
        then some (skip_vendored, codes "lives under " ++ (vendored_segment p ++ codes "/"))
        else if not (text_eq (generated_by_name p) [])
        then some (skip_generated, generated_by_name p)
        else none
  ]

  -- `selectByPath`
  unfoldable pub select_by_path : Text → ℕ → Verdict
  unfolding select_path data_reason
  select_by_path p size = elim (select_path p) [
    | some v ↦ v
    | none ↦
        let reason = data_reason p size o.max_data_bytes o.max_schema_bytes in
        if not (text_eq reason []) then (skip_data, reason) else (include, [])
  ]

  -- `SelectSize`; `none` is `decided == false`.
  unfoldable pub select_size : Text → ℕ → Option Verdict
  unfolding select_by_path is_include
  select_size p size =
      if ltb o.max_bytes size
      then some (skip_too_large, too_large_detail)
      else (let v = select_by_path p (if a.is_config_path p then 0 else size) in
          if not (is_include v.0) then some v else none)

  -- `SelectBody`: the verdict, and the body that is to be indexed.
  unfoldable pub select_body : Text → Text → Verdict × Text
  unfolding is_binary select_by_path is_include
  select_body p body =
      if ltb o.max_bytes (length body)
      then ((skip_too_large, too_large_detail), body)
      else if is_binary body
      then ((skip_binary, codes "contains NUL bytes"), body)
      else if a.secret_manifest p body
      then ((skip_secret, codes "is a Secret or SealedSecret manifest"), body)
      else (let red = a.redact p body in
          let secret = a.match_secret red in
          let v = select_by_path p (length red) in
          if not (text_eq secret [])
          then ((skip_secret, codes "matches a credential pattern (" ++ (secret ++ codes ")")), red)
          else if not (is_include v.0)
          then (v, red)
          else if a.generated_marker (take 2048 red)
          then ((skip_generated, codes "carries a generated-code marker"), red)
          else ((include, []), red))

-- ===== src/Retrieve/Paths.antt =====
-- backend/internal/retrieve/testpath.go and docpath.go: whether a path is test material or prose, by
-- its shape alone.
use rongo.Prelude.{
  Bool, false, ◌&&◌, ◌||◌, Option, none, some, List, [], ◌∷◌, map, Text, codes, text_eq, text_in,
  has_prefix, has_suffix, split_on, lower, ◌==◌, if◌then◌else◌,
}

abbrev test_dirs : List Text
test_dirs =
    codes "test" ∷ codes "tests" ∷ codes "__tests__" ∷ codes "testdata" ∷ codes "testutil" ∷ []

abbrev test_suffixes : List Text
test_suffixes =
    codes "_test.go"
    ∷ codes "_test.py"
    ∷ codes "_test.ts"
    ∷ codes "_test.js"
    ∷ codes "_spec.rb"
    ∷ codes "Test.java"
    ∷ codes "Tests.java"
    ∷ codes "Test.cs"
    ∷ codes "Tests.cs"
    ∷ []

abbrev test_infixes : List Text
test_infixes = codes ".test" ∷ codes ".spec" ∷ []

abbrev script_exts : List Text
script_exts =
    codes ".ts"
    ∷ codes ".tsx"
    ∷ codes ".js"
    ∷ codes ".jsx"
    ∷ codes ".mjs"
    ∷ codes ".cjs"
    ∷ codes ".mts"
    ∷ codes ".cts"
    ∷ []

abbrev doc_dirs : List Text
doc_dirs = codes "doc" ∷ codes "docs" ∷ codes "documentation" ∷ []

abbrev doc_exts : List Text
doc_exts = codes ".md" ∷ codes ".markdown" ∷ codes ".rst" ∷ codes ".adoc" ∷ codes ".asciidoc" ∷ []

abbrev doc_stems : List Text
doc_stems =
    codes "readme"
    ∷ codes "changelog"
    ∷ codes "license"
    ∷ codes "licence"
    ∷ codes "contributing"
    ∷ codes "notice"
    ∷ codes "authors"
    ∷ []

-- What is before the last dot, and the rest from it on.
unfoldable pub last_dot : Text → Option (Text × Text)
last_dot [] = none
last_dot (c ∷ s) = elim (last_dot s) [
  | some (before, after) ↦ some (c ∷ before, after)
  | none ↦ if c == b'.' then some ([], c ∷ s) else none
]

unfoldable pub any_suffix : Text → List Text → Bool
any_suffix s [] = false
any_suffix s (p ∷ ps) = has_suffix s p || any_suffix s ps

-- Whether a segment but the last one, in lower case, is among these.
unfoldable pub under_dir : List Text → List Text → Bool
unfolding text_in
under_dir dirs [] = false
under_dir dirs (last ∷ []) = false
under_dir dirs (s ∷ t ∷ segs) = text_in (map lower s) dirs || under_dir dirs (t ∷ segs)

abbrev last_segment : List Text → Text
last_segment [] = []
last_segment (s ∷ []) = s
last_segment (s ∷ t ∷ segs) = last_segment (t ∷ segs)

-- The marker between dots, on the script extensions only.
unfoldable pub has_infix : Text → Bool
unfolding last_dot any_suffix text_in
has_infix name = elim (last_dot name) [
  | none ↦ false
  | some (before, after) ↦ text_in after script_exts && any_suffix before test_infixes
]

-- `IsTestPath`
unfoldable pub is_test_path : Text → Bool
unfolding under_dir any_suffix has_infix split_on
is_test_path path =
    if text_eq path []
    then false
    else (let segs = split_on b'/' path in
        let name = last_segment segs in
        under_dir test_dirs segs
        || any_suffix name test_suffixes
        || has_prefix name (codes "test_")
        || has_infix name)

-- `IsProseDoc`
unfoldable pub is_prose_doc : Text → Bool
unfolding last_dot text_in split_on
is_prose_doc path =
    if text_eq path []
    then false
    else (let name = map lower (last_segment (split_on b'/' path)) in
        elim (last_dot name) [
          | none ↦ text_in name doc_stems
          | some (before, after) ↦
              text_in after doc_exts || (text_eq after (codes ".txt") && text_in before doc_stems)
        ])

-- `IsDocPath`
unfoldable pub is_doc_path : Text → Bool
unfolding under_dir is_prose_doc split_on
is_doc_path path =
    if text_eq path [] then false else under_dir doc_dirs (split_on b'/' path) || is_prose_doc path

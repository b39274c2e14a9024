-- ===== src/Indexer/Select/Tests.antt =====
-- backend/internal/indexer/select.go on small files and patterns.
use rongo.Prelude.{
  ◌≤◌, length, ◌≡◌, refl, ◌↔◌, true, false, some, List, [], ◌∷◌, Text, codes, text_eq,
}
use rongo.Indexer.Select.{
  SelectOptions, Readers, Verdict, is_include, skip_data, skip_vendored, select_path, select_size,
  select_body, is_binary,
}
use rongo.Indexer.Select.Globs.{match_segments, Covers, match_segments-Covers}
use rongo.Indexer.Select.Safe.{IsOpen, select_body-IsOpen}
use rongo.Indexer.Select.Early.{select_body-select_size}

abbrev plain_readers : Readers
plain_readers = record {
  matches = text_eq;
  secret_manifest = λ p b. false;
  redact = λ p b. b;
  match_secret = λ b. [];
  is_config_path = λ p. false;
  generated_marker = λ b. false;
}

abbrev small_options : SelectOptions
small_options = record {
  max_bytes = 4;
  max_data_bytes = 3;
  max_schema_bytes = 3;
  exclude = codes "docs/**" ∷ [];
}

abbrev plans_pattern : List Text
plans_pattern = codes "**" ∷ codes "plans" ∷ codes "**" ∷ []

abbrev plans_path : List Text
plans_path = codes "docs" ∷ codes "plans" ∷ codes "x.md" ∷ []

match_segments-Covers_example :
    (match_segments text_eq plans_pattern plans_path ≡ true)
    ↔ Covers text_eq plans_pattern plans_path
match_segments-Covers_example = match_segments-Covers text_eq plans_pattern plans_path

plans_match : match_segments text_eq plans_pattern plans_path ≡ true
unfolding match_segments
plans_match = refl

under_vendor :
    select_path plain_readers small_options (codes "a/vendor/b.go")
    ≡ some (skip_vendored, codes "lives under vendor/")
unfolding select_path
under_vendor = refl

abbrev data_verdict : Verdict
data_verdict = (skip_data, codes "4 bytes of json, above the data ceiling of 3")

data_refused : select_size plain_readers small_options (codes "a.json") 4 ≡ some data_verdict
unfolding select_size
data_refused = refl

select_body-select_size_example :
    is_include ((select_body plain_readers small_options (codes "a.json") (codes "[12]")).0.0)
    ≡ false
select_body-select_size_example =
    select_body-select_size plain_readers small_options (codes "a.json") (codes "[12]") data_verdict
      (λ c. refl) data_refused

included :
    is_include ((select_body plain_readers small_options (codes "a.go") (codes "var")).0.0) ≡ true
unfolding select_body
included = refl

select_body-IsOpen_example :
    ((select_body plain_readers small_options (codes "a.go") (codes "var")).1 ≡ codes "var")
    × (plain_readers.match_secret (codes "var") ≡ [])
    × (plain_readers.secret_manifest (codes "a.go") (codes "var") ≡ false)
    × (length (codes "var") ≤ 4)
    × (is_binary (codes "var") ≡ false)
    × IsOpen plain_readers small_options (codes "a.go")
select_body-IsOpen_example =
    select_body-IsOpen plain_readers small_options (codes "a.go") (codes "var") included

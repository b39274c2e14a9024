-- ===== src/Indexer/Select/Names.antt =====
-- backend/internal/indexer/select.go: the names by which a file is selected.
use rongo.Prelude.{List, [], ◌∷◌, Text, codes}

abbrev pub vendored_dirs : List Text
vendored_dirs =
    codes "node_modules"
    ∷ codes "vendor"
    ∷ codes "third_party"
    ∷ codes "thirdparty"
    ∷ codes ".venv"
    ∷ codes "site-packages"
    ∷ []

abbrev pub catalogue_dirs : List Text
catalogue_dirs = codes "i18n" ∷ codes "locales" ∷ codes "locale" ∷ codes "translations" ∷ []

abbrev pub catalogue_exts : List Text
catalogue_exts =
    codes ".json"
    ∷ codes ".xml"
    ∷ codes ".yaml"
    ∷ codes ".yml"
    ∷ codes ".properties"
    ∷ codes ".xlf"
    ∷ codes ".xliff"
    ∷ codes ".po"
    ∷ codes ".pot"
    ∷ codes ".resx"
    ∷ codes ".strings"
    ∷ codes ".csv"
    ∷ codes ".arb"
    ∷ []

abbrev pub generated_files : List Text
generated_files = codes "package-lock.json" ∷ codes "pnpm-lock.yaml" ∷ []

abbrev pub generated_suffixes : List Text
generated_suffixes =
    codes ".pb.go"
    ∷ codes ".pb.ts"
    ∷ codes ".pb.js"
    ∷ codes "_pb2.py"
    ∷ codes "_pb2_grpc.py"
    ∷ codes ".g.dart"
    ∷ codes ".freezed.dart"
    ∷ codes ".gen.go"
    ∷ codes ".gen.ts"
    ∷ codes ".designer.cs"
    ∷ []

abbrev pub data_exts : List Text
data_exts =
    codes ".csv"
    ∷ codes ".tsv"
    ∷ codes ".jsonl"
    ∷ codes ".ndjson"
    ∷ codes ".geojson"
    ∷ codes ".parquet"
    ∷ codes ".avro"
    ∷ codes ".map"
    ∷ codes ".snap"
    ∷ codes ".har"
    ∷ codes ".log"
    ∷ codes ".xlf"
    ∷ codes ".xliff"
    ∷ codes ".po"
    ∷ codes ".pot"
    ∷ codes ".mo"
    ∷ codes ".resx"
    ∷ codes ".strings"
    ∷ codes ".svg"
    ∷ codes ".pdf"
    ∷ codes ".ipynb"
    ∷ []

abbrev pub sized_data_exts : List Text
sized_data_exts = codes ".json" ∷ codes ".json5" ∷ codes ".xml" ∷ codes ".plist" ∷ []

abbrev pub schema_exts : List Text
schema_exts = codes ".xsd" ∷ codes ".wsdl" ∷ []

abbrev pub manifest_files : List Text
manifest_files =
    codes "project.json"
    ∷ codes "package.json"
    ∷ codes "nx.json"
    ∷ codes "angular.json"
    ∷ codes "pom.xml"
    ∷ codes "composer.json"
    ∷ codes "deno.json"
    ∷ codes ".eslintrc.json"
    ∷ codes "renovate.json"
    ∷ codes "applicationContext.xml"
    ∷ codes "persistence.xml"
    ∷ codes "web.xml"
    ∷ codes "logback.xml"
    ∷ codes "logback-spring.xml"
    ∷ codes "log4j2.xml"
    ∷ codes "appsettings.json"
    ∷ codes "launchSettings.json"
    ∷ []

abbrev pub exempt_suffixes : List Text
exempt_suffixes = codes ".bpmn20.xml" ∷ codes ".bpmn.xml" ∷ []

-- Each with what it holds.
abbrev pub generated_dirs : List (Text × Text)
generated_dirs =
    (codes "dist", codes "build output")
    ∷ (codes "build", codes "build output")
    ∷ (codes "target", codes "build output")
    ∷ (codes "out", codes "build output")
    ∷ (codes ".next", codes "build output")
    ∷ (codes "generated", codes "generated code")
    ∷ (codes "__generated__", codes "generated code")
    ∷ (codes "__snapshots__", codes "test snapshots")
    ∷ (codes "coverage", codes "coverage reports")
    ∷ (codes ".idea", codes "IDE state")
    ∷ (codes ".gradle", codes "build state")
    ∷ (codes ".nx", codes "build state")
    ∷ (codes ".angular", codes "build state")
    ∷ []

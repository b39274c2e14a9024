-- ===== src/Indexer/Chunk/Kinds.antt =====
-- The tables of chunk.go: which kinds of symbol a chunk may be anchored on, and which lines are
-- comments. The kinds of process models and schemas are those of symbols/bpmn.go and symbols/xsd.go,
-- which read bpmn/bpmn.go.
use rongo.Prelude.{
  Bool, ◌||◌, List, [], ◌∷◌, ◌++◌, Text, codes, text_eq, text_in, map, lower, ext, base,
  if◌then◌else◌,
}

-- `nodeKinds` of bpmn.go
abbrev node_kinds : List Text
node_kinds =
    codes "task"
    ∷ codes "serviceTask"
    ∷ codes "userTask"
    ∷ codes "sendTask"
    ∷ codes "receiveTask"
    ∷ codes "scriptTask"
    ∷ codes "businessRuleTask"
    ∷ codes "manualTask"
    ∷ codes "callActivity"
    ∷ codes "subProcess"
    ∷ codes "adHocSubProcess"
    ∷ codes "transaction"
    ∷ codes "exclusiveGateway"
    ∷ codes "parallelGateway"
    ∷ codes "inclusiveGateway"
    ∷ codes "eventBasedGateway"
    ∷ codes "complexGateway"
    ∷ codes "startEvent"
    ∷ codes "endEvent"
    ∷ codes "intermediateCatchEvent"
    ∷ codes "intermediateThrowEvent"
    ∷ codes "boundaryEvent"
    ∷ []

abbrev pub diagram_kind : Text
diagram_kind = codes "diagram"

-- `BPMNStructuralKinds`
abbrev bpmn_structural_kinds : List Text
bpmn_structural_kinds = node_kinds ++ (codes "sequenceFlows" ∷ diagram_kind ∷ [])

abbrev structural_kinds : List Text
structural_kinds =
    codes "func"
    ∷ codes "function"
    ∷ codes "method"
    ∷ codes "procedure"
    ∷ codes "subroutine"
    ∷ codes "constructor"
    ∷ codes "class"
    ∷ codes "struct"
    ∷ codes "interface"
    ∷ codes "trait"
    ∷ codes "enum"
    ∷ codes "type"
    ∷ codes "typedef"
    ∷ codes "union"
    ∷ codes "module"
    ∷ codes "namespace"
    ∷ codes "object"
    ∷ codes "singletonMethod"
    ∷ codes "macro"
    ∷ bpmn_structural_kinds

-- `XSDStructuralKinds`, the children of `xsdAnchors`
abbrev schema_kinds : List Text
schema_kinds =
    codes "element"
    ∷ codes "complexType"
    ∷ codes "simpleType"
    ∷ codes "group"
    ∷ codes "attributeGroup"
    ∷ codes "attribute"
    ∷ codes "message"
    ∷ codes "portType"
    ∷ codes "binding"
    ∷ codes "service"
    ∷ codes "operation"
    ∷ []

-- `isSchemaLang (LanguageOf path)`: the languages are named for these two extensions alone.
unfoldable pub is_schema : Text → Bool
is_schema path =
    let e = map lower (ext path) in text_eq e (codes ".xsd") || text_eq e (codes ".wsdl")

-- The kinds that a chunk of this file may be anchored on.
unfoldable pub anchor_kind : Text → Text → Bool
unfolding is_schema text_in
anchor_kind path kind = text_in kind (if is_schema path then schema_kinds else structural_kinds)

abbrev hash_comment_exts : List Text
hash_comment_exts =
    codes ".py"
    ∷ codes ".rb"
    ∷ codes ".sh"
    ∷ codes ".bash"
    ∷ codes ".zsh"
    ∷ codes ".yaml"
    ∷ codes ".yml"
    ∷ codes ".toml"
    ∷ codes ".cfg"
    ∷ codes ".ini"
    ∷ codes ".properties"
    ∷ codes ".pl"
    ∷ codes ".r"
    ∷ codes ".tf"
    ∷ codes ".dockerfile"
    ∷ codes ".mk"
    ∷ []

abbrev c_style_strip_prefixes : List Text
c_style_strip_prefixes = codes "//" ∷ codes "/*" ∷ codes "*/" ∷ []

-- `stripPrefixesFor`
unfoldable pub strip_prefixes_for : Text → List Text
unfolding text_in
strip_prefixes_for path =
    let e = map lower (ext path) in
    let b = map lower (base path) in
    if text_in e hash_comment_exts
      || text_in b (codes "makefile" ∷ codes "containerfile" ∷ codes "dockerfile" ∷ [])
    then c_style_strip_prefixes ++ (codes "#" ∷ [])
    else c_style_strip_prefixes

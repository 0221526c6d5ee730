-- ===== src/Schema/Validate.antt =====
-- internal/edns/result_schema.go: `ValidateResultV1JSON`. `H` says how the file system, the package
-- `encoding/json` and the package jsonschema answer.
use encrypted_dns_skill.Base.{Bool, Option, none, some, length}
use encrypted_dns_skill.Errors.{
  read_schema, decode_schema, add_schema, compile_schema_failed, decode_result, Fallible, ◌>>=◌,
}
use encrypted_dns_skill.Json.{Json}
use encrypted_dns_skill.Schema.Path.{fallback, search}
use encrypted_dns_skill.Text.{Text, Bytes, codes}
use encrypted_dns_skill.Transport.Dial.{wrap_error}

-- `C` is a compiler of schemas, and `S` a compiled schema.
pub record SchemaHost (C S : Type 0) : Type 0 where
  -- `os.Getwd`, whether `os.Stat` finds a file, and `os.ReadFile`
  pub working_directory : Option Text
  pub exists : Text → Bool
  pub read_file : Text → Fallible Bytes
  -- `json.Unmarshal` into an `any`
  pub decode : Bytes → Fallible Json
  -- `jsonschema.NewCompiler`, `AddResource`, which changes the compiler, `Compile` and `Validate`
  pub new_compiler : C
  pub add_resource : C → Text → Json → Fallible C
  pub compile : C → Text → Fallible S
  pub validate : S → Json → Fallible (Unit {0})

abbrev pub schema_name : Text
schema_name = codes "result-v1.schema.json"

module _ {C S : Type 0} (H : SchemaHost C S) where
  -- `resultSchemaPath`; the fuel is the length of the working directory, `none` that it ran out.
  unfoldable pub result_schema_path : Option Text
  result_schema_path = elim H.working_directory [
    | none ↦ some fallback
    | some dir ↦ search (length dir) H.exists dir
  ]

  -- From the bytes of the schema on.
  unfoldable pub compile_schema : Bytes → Fallible S
  compile_schema bytes = do
    document ← wrap_error decode_schema (H.decode bytes)
    compiler ← wrap_error add_schema (H.add_resource H.new_compiler schema_name document)
    wrap_error compile_schema_failed (H.compile compiler schema_name)

  -- `ValidateResultV1JSON`, from the path of the schema on.
  unfoldable pub validate_at : Text → Bytes → Fallible (Unit {0})
  validate_at path document = do
    bytes ← wrap_error read_schema (H.read_file path)
    schema ← compile_schema bytes
    value ← wrap_error decode_result (H.decode document)
    H.validate schema value

  -- `ValidateResultV1JSON`; `none` where the search for the schema ran out of fuel.
  unfoldable pub validate_result : Bytes → Option (Fallible (Unit {0}))
  validate_result document = elim result_schema_path [
    | none ↦ none
    | some path ↦ some (validate_at path document)
  ]

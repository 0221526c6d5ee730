-- ===== src/Cli/Run.antt =====
-- cmd/ednsdiag/main.go: `run`, from the arguments to the exit status and what is printed.
pub mod Laws
pub mod Comparison
use encrypted_dns_skill.Base.{
  ℕ, ℤ, Bool, true, false, List, [], ◌∷◌, Option, none, some, ◌==◌, ◌||◌, not, if◌then◌else◌,
}
use encrypted_dns_skill.Capability.{Capability, capabilities}
use encrypted_dns_skill.Cli.CompareArgs.{CompareArgs, parse_compare_args}
use encrypted_dns_skill.Cli.QueryArgs.{QueryArgs, parse_query_args}
use encrypted_dns_skill.Errors.{Error, Fallible, ok, err}
use encrypted_dns_skill.Model.{QueryOptions, CompareOptions, ErrorInfo, Result, CompareResult}
use encrypted_dns_skill.Platform.{Platform}
use encrypted_dns_skill.Text.{Text, codes, text_eq}

abbrev pub exit_success : ℕ
exit_success = 0

abbrev pub exit_local : ℕ
exit_local = 1

abbrev pub exit_usage : ℕ
exit_usage = 2

abbrev pub exit_transport : ℕ
exit_transport = 3

abbrev pub exit_unsupported : ℕ
exit_unsupported = 4

abbrev pub version : Text
version = codes "0.1.0"

pub record CapabilitiesResult : Type 0 where
  pub schema_version : ℕ
  pub command : Text
  pub version : Text
  pub capabilities : List Capability

-- What is written to stdout: a JSON document, or the line with the version.
pub data Document : Type 0 where
  capabilities_document : CapabilitiesResult → Document
  result_document : Result → Document
  compare_document : CompareResult → Document
  version_line : Text → Document

-- What is written to stderr.
pub data Diagnostic : Type 0 where
  usage query_usage compare_usage encoding_failed : Diagnostic
  takes_no_arguments : Text → Diagnostic
  unknown_command : Text → Diagnostic
  error_line : Error → Diagnostic

pub record Finished : Type 0 where
  pub code : ℕ
  pub stdout : List Document
  pub stderr : List Diagnostic

-- `runQuery`, `runProbe` and `runCompare`, each under its timeout, and whether the encoder
-- accepts a document and writes it; where it does not, nothing is written.
pub record Runners : Type 0 where
  pub run_query : ℤ → QueryOptions → Result
  pub run_probe : ℤ → QueryOptions → Result
  pub run_compare : ℤ → CompareOptions → CompareResult
  pub encodes : Document → Bool

-- The switch over the class of an error.
unfoldable pub class_exit_code : Text → ℕ
class_exit_code class =
    if text_eq class (codes "internal")
    then exit_local
    else if text_eq class (codes "input")
    then exit_usage
    else if text_eq class (codes "unsupported")
    then exit_unsupported
    else if text_eq class (codes "transport") || text_eq class (codes "protocol")
    then exit_transport
    else exit_local

unfoldable pub result_exit_code : Bool → Option ErrorInfo → ℕ
result_exit_code true error = exit_success
result_exit_code false none = exit_local
result_exit_code false (some e) = class_exit_code e.class

abbrev pub refused : List Diagnostic → Finished
refused lines = record { code = exit_usage; stdout = []; stderr = lines }

-- `writeJSON`, and the exit code behind it.
unfoldable pub write_json : Runners → Document → ℕ → Finished
write_json R document code =
    if R.encodes document
    then record { code = code; stdout = document ∷ []; stderr = [] }
    else record { code = exit_local; stdout = []; stderr = encoding_failed ∷ [] }

unfoldable pub finish_query : Runners → Result → Finished
finish_query R result =
    write_json R (result_document result) (result_exit_code result.completed result.error)

unfoldable pub finish_compare : Runners → CompareResult → Finished
finish_compare R result =
    write_json R (compare_document result) (result_exit_code result.completed result.error)

unfoldable pub run_capabilities : Runners → List Text → Finished
run_capabilities R [] =
    write_json R
      (capabilities_document (record {
        schema_version = 1;
        command = codes "capabilities";
        version = version;
        capabilities = capabilities;
      }))
      exit_success
run_capabilities R (argument ∷ arguments) = refused (takes_no_arguments (codes "capabilities") ∷ [])

unfoldable pub run_version : List Text → Finished
run_version [] = record { code = exit_success; stdout = version_line version ∷ []; stderr = [] }
run_version (argument ∷ arguments) = refused (takes_no_arguments (codes "version") ∷ [])

module _ (P : Platform) (R : Runners) where
  unfoldable pub run_query_command : (ℤ → QueryOptions → Result) → List Text → Finished
  run_query_command runner arguments = elim (parse_query_args P arguments) [
    | err e ↦ refused (error_line e ∷ query_usage ∷ [])
    | ok s ↦ finish_query R (runner s.timeout s.options)
  ]

  unfoldable pub run_compare_command : List Text → Finished
  run_compare_command arguments = elim (parse_compare_args P arguments) [
    | err e ↦ refused (error_line e ∷ compare_usage ∷ [])
    | ok s ↦ finish_compare R (R.run_compare s.total_timeout s.options)
  ]

  unfoldable pub run : List Text → Finished
  run [] = refused (usage ∷ [])
  run (command ∷ arguments) =
      if text_eq command (codes "capabilities")
      then run_capabilities R arguments
      else if text_eq command (codes "version")
      then run_version arguments
      else if text_eq command (codes "query")
      then run_query_command R.run_query arguments
      else if text_eq command (codes "probe")
      then run_query_command R.run_probe arguments
      else if text_eq command (codes "compare")
      then run_compare_command arguments
      else refused (unknown_command command ∷ usage ∷ [])

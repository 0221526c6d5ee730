-- ===== src/Tests/Schema.antt =====
-- The schema over the fixtures: what the commands print, and its validation.
use encrypted_dns_skill.Base.{
  ℕ, ◌+◌, ◌*◌, ◌<◌, Bool, true, [], ◌∷◌, none, some, ◌≡◌, ◌↔◌, refl, arith, All, length,
}
use encrypted_dns_skill.Compare.{compare_with_query}
use encrypted_dns_skill.Compare.Classes.{real_queries}
use encrypted_dns_skill.Compare.Schedule.{finishes}
use encrypted_dns_skill.Dns.Query.{Random}
use encrypted_dns_skill.Errors.{Error, unpack_query, ok, err}
use encrypted_dns_skill.Json.{Json, null}
use encrypted_dns_skill.Json.Encode.{result_json, compare_json}
use encrypted_dns_skill.Platform.{to_upper}
use encrypted_dns_skill.Query.{query_with_exchange, probe}
use encrypted_dns_skill.Query.Laws.Completed.{HasClass}
use encrypted_dns_skill.Schema.{conforms}
use encrypted_dns_skill.Schema.Command.{
  UppersOnce, query_document-conforms, compare_document-conforms,
}
use encrypted_dns_skill.Schema.Compare.{IsNoProtocolError}
use encrypted_dns_skill.Schema.Path.{
  candidate, join_path, clean, stack_text, push_elements, push_element, dir_of, up_to_slash,
}
use encrypted_dns_skill.Schema.Path.Search.{IsLocated, search-IsLocated}
use encrypted_dns_skill.Schema.Path.{search}
use encrypted_dns_skill.Schema.Replies.{UnpacksBodies}
use encrypted_dns_skill.Schema.Result.{result_v1}
use encrypted_dns_skill.Schema.Validate.{
  SchemaHost, result_schema_path, compile_schema, validate_at, validate_result,
}
use encrypted_dns_skill.Tests.Cli.{
  query_line, query_parsed, query-parsed, compare_line, compare_parsed, compare-parsed,
}
use encrypted_dns_skill.Schema.Normalized.{IsBody}
use mathlib.Core.Path.{subst}
use encrypted_dns_skill.Tests.Fixtures.{platform, random, reply}
use encrypted_dns_skill.Tests.Network.{network}
use encrypted_dns_skill.Text.{Text, codes, text_eq, split}
use encrypted_dns_skill.Text.Split.{join}
use encrypted_dns_skill.Transport.Network.{network_exchange}

abbrev wording : Error → Text
wording e = codes "failed"

uppers_once : UppersOnce platform
unfolding to_upper
uppers_once s h = rw h

unpacks_bodies : UnpacksBodies platform
unpacks_bodies [] m h = cc
unpacks_bodies (x ∷ []) m h = cc
unpacks_bodies (x ∷ y ∷ l) m h =
    let e : reply (x * 256 + y) ≡ m = cc in
    subst (λ m. All (λ r. IsBody r.header.rtype r.body) m.answers) e (refl, tt)

query_document-conforms_example :
    let ex = network_exchange platform network in
    let r = query_with_exchange platform random query_parsed.options ex in
    ((conforms result_v1 (result_json wording r) ≡ true) ↔ ¬ HasClass (codes "protocol") r.error)
    × ((conforms result_v1 (result_json wording (probe platform random query_parsed.options ex))
          ≡ true)
        ↔ ¬ HasClass (codes "protocol") r.error)
query_document-conforms_example =
    query_document-conforms platform wording uppers_once unpacks_bodies network random query_line
      query-parsed

two_targets-cover :
    (i : ℕ) → i < length compare_parsed.options.targets → finishes (1 ∷ 0 ∷ []) i ≡ true
unfolding finishes
two_targets-cover i h = ground arith

abbrev same_random : ℕ → Random
same_random i = random

compare_document-conforms_example :
    let queries = real_queries platform same_random (λ i. network_exchange platform network) in
    let c = compare_with_query platform random none compare_parsed.options (1 ∷ 0 ∷ []) queries in
    (conforms result_v1 (compare_json wording c) ≡ true) ↔ All IsNoProtocolError c.attempts
compare_document-conforms_example =
    compare_document-conforms platform wording uppers_once unpacks_bodies (λ i. network) random
      same_random none (1 ∷ 0 ∷ []) compare_line compare-parsed two_targets-cover

-- A repository at `/r`, and what is known of the document.
abbrev is_schema_file : Text → Bool
is_schema_file path = text_eq path (candidate (codes "/r"))

abbrev host : Json → SchemaHost (Unit {0}) (Unit {0})
host v = record {
  working_directory = some (codes "/r/a");
  exists = is_schema_file;
  read_file = λ path. ok [];
  decode = λ bytes. ok v;
  new_compiler = tt;
  add_resource = λ compiler name document. ok compiler;
  compile = λ compiler name. ok tt;
  validate = λ schema value. err unpack_query;
}

search-IsLocated_example :
    (path : Text) × (search 4 is_schema_file (codes "/r/a") ≡ some path)
    × IsLocated is_schema_file (codes "/r/a") path
search-IsLocated_example = search-IsLocated is_schema_file 4 (codes "r/a") (omega arith)

-- The error of the package jsonschema is returned as it is.
test-refused : validate_result (host null) [] ≡ some (err unpack_query)
unfolding validate_result result_schema_path validate_at compile_schema search text_eq candidate
    join_path clean join stack_text push_elements split push_element dir_of up_to_slash
test-refused = refl

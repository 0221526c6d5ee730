-- ===== src/Tests/Cli.antt =====
-- Command lines.
use encrypted_dns_skill.Proxy.{
  accept_url, check_proxy, from_selected, parse_proxy_url, resolve_proxy, validate_proxy_url,
}
use encrypted_dns_skill.Provider.{
  adguard, cloudflare, dnscrypt_endpoint, endpoint, find_provider, google, is_no_config,
  lookup_provider, providers, quad9, raw_endpoint, stamp,
}
use encrypted_dns_skill.Platform.{to_lower, to_upper, trim_space}
use encrypted_dns_skill.Dns.Tables.{
  is_supported_record_type, lookup_type, rcode_name, record_type, record_types, trim_root,
  type_name, type_name_in,
}
use encrypted_dns_skill.Dns.Name.{from_option}
use encrypted_dns_skill.Cli.Target.{
  check_method, check_target, identity, parse_compare_target, target_of,
}
use encrypted_dns_skill.Capability.{
  capabilities, known_protocol, lists_protocol, proxy_supported, validate_http_method,
}
use encrypted_dns_skill.Base.{ℕ, ◌<◌, length}
use encrypted_dns_skill.Base.{ℤ, pos, List, [], ◌∷◌, ◌++◌, map, true, none, ◌≡◌, refl, arith}
use encrypted_dns_skill.Cli.CompareArgs.{
  CompareArgs, parse_compare_args, add_target, apply_compare_flag, apply_compare_flags,
  check_compare_args, check_proxy_targets, is_seen,
}
use encrypted_dns_skill.Cli.CompareArgs.Laws.{IsValidCompare, parse_compare_args-IsValidCompare}
use encrypted_dns_skill.Cli.Flags.{FlagValue, consume_flags, cut_flag, parse_domain_and_type}
use encrypted_dns_skill.Cli.Flags.RoundTrip.{render, consume-render}
use encrypted_dns_skill.Cli.QueryArgs.{
  QueryArgs, parse_query_args, apply_query_flag, apply_query_flags, check_query_args,
}
use encrypted_dns_skill.Cli.QueryArgs.Laws.{IsValidQuery, parse_query_args-IsValidQuery}
use encrypted_dns_skill.Cli.Run.{Runners, run, run_query_command, result_document}
use encrypted_dns_skill.Cli.Run.{run_compare_command, compare_document}
use encrypted_dns_skill.Cli.Run.Comparison.{
  comparing, IsCompareContract, compare_command-IsCompareContract,
}
use encrypted_dns_skill.Compare.Schedule.{finishes}
use encrypted_dns_skill.Dns.Query.{Random}
use encrypted_dns_skill.Cli.Run.Laws.{
  IsOneStream, run-IsOneStream, IsContract, query_command-IsContract,
}
use encrypted_dns_skill.Errors.{ok}
use encrypted_dns_skill.Model.{QueryOptions, Result}
use encrypted_dns_skill.Compare.{compare_with_query}
use encrypted_dns_skill.Query.{Exchange, query_with_exchange, probe}
use encrypted_dns_skill.Tests.Fixtures.{platform, random, answer}
use encrypted_dns_skill.Text.{
  Text, codes, cut, decimal, digits, has_prefix, has_suffix, hex_digit, is_ascii, is_space,
  lower_byte, split, split_from, text_eq, trim_left, trim_prefix, trim_right, trim_suffix,
  upper_byte,
}

abbrev pub query_line : List Text
query_line =
    codes "example.com"
    ∷ codes "--provider=google"
    ∷ codes "aaaa"
    ∷ codes "--protocol"
    ∷ codes "DoT"
    ∷ []

abbrev pub query_parsed : QueryArgs
query_parsed = record {
  options = record {
    name = codes "example.com";
    record_type = codes "AAAA";
    protocol = codes "dot";
    provider = codes "google";
    method = codes "post";
    proxy = [];
  };
  timeout = pos 5_000_000_000;
}

pub query-parsed : parse_query_args platform query_line ≡ ok query_parsed
unfolding text_eq has_prefix has_suffix trim_prefix trim_suffix split split_from cut digits decimal
    hex_digit is_ascii is_space lower_byte upper_byte trim_left trim_right to_lower to_upper
    trim_space cut_flag consume_flags parse_domain_and_type apply_query_flag apply_query_flags
    check_query_args parse_query_args check_method check_target target_of parse_compare_target
    identity lists_protocol capabilities known_protocol validate_http_method proxy_supported
    cloudflare google quad9 adguard providers stamp is_no_config dnscrypt_endpoint raw_endpoint
    endpoint lookup_provider find_provider check_proxy accept_url parse_proxy_url validate_proxy_url
    from_selected resolve_proxy from_option record_types lookup_type record_type type_name_in
    type_name rcode_name is_supported_record_type trim_root
query-parsed = refl

parse_query_args-IsValidQuery_example : IsValidQuery platform query_parsed
parse_query_args-IsValidQuery_example =
    parse_query_args-IsValidQuery platform query_line query-parsed

abbrev pub compare_line : List Text
compare_line = codes "example.com" ∷ codes "--target=doh:google" ∷ codes "--target=dot:quad9" ∷ []

abbrev pub compare_parsed : CompareArgs
compare_parsed = record {
  options = record {
    name = codes "example.com";
    record_type = codes "A";
    targets =
        record { protocol = codes "doh"; provider = codes "google"; method = codes "post" }
        ∷ record { protocol = codes "dot"; provider = codes "quad9"; method = codes "post" }
        ∷ [];
    attempt_timeout = pos 5_000_000_000;
    max_attempts = pos 4;
    proxy = [];
  };
  total_timeout = pos 30_000_000_000;
  seen = codes "dot:quad9:post" ∷ codes "doh:google:post" ∷ [];
}

pub compare-parsed : parse_compare_args platform compare_line ≡ ok compare_parsed
unfolding text_eq has_prefix has_suffix trim_prefix trim_suffix split split_from cut digits decimal
    hex_digit is_ascii is_space lower_byte upper_byte trim_left trim_right to_lower to_upper
    trim_space cut_flag consume_flags parse_domain_and_type apply_query_flag apply_query_flags
    check_query_args parse_query_args check_method check_target target_of parse_compare_target
    identity lists_protocol capabilities known_protocol validate_http_method proxy_supported
    cloudflare google quad9 adguard providers stamp is_no_config dnscrypt_endpoint raw_endpoint
    endpoint lookup_provider find_provider check_proxy accept_url parse_proxy_url validate_proxy_url
    from_selected resolve_proxy from_option record_types lookup_type record_type type_name_in
    type_name rcode_name is_supported_record_type trim_root is_seen check_proxy_targets add_target
    apply_compare_flag apply_compare_flags check_compare_args parse_compare_args
compare-parsed = refl

parse_compare_args-IsValidCompare_example : IsValidCompare platform compare_parsed
parse_compare_args-IsValidCompare_example =
    parse_compare_args-IsValidCompare platform compare_line compare-parsed

abbrev provider_flag : FlagValue
provider_flag = record { key = codes "id"; value = codes "a=b" }

consume-render_example :
    consume_flags (map render (provider_flag ∷ []) ++ codes "example.com" ∷ [])
    ≡ ok (record { flags = provider_flag ∷ []; positionals = codes "example.com" ∷ [] })
unfolding has_prefix
consume-render_example =
    consume-render (provider_flag ∷ []) (codes "example.com" ∷ [])
      ((ground arith, (ground arith, tt)), tt) (refl, tt)

abbrev runners : Runners
runners = record {
  run_query = λ timeout options. query_with_exchange platform random options answer;
  run_probe = λ timeout options. probe platform random options answer;
  run_compare = λ timeout options.
      compare_with_query platform random none options (1 ∷ 0 ∷ [])
        (λ i o. query_with_exchange platform random o answer);
  encodes = λ d. true;
}

run-IsOneStream_example : IsOneStream (run platform runners (codes "query" ∷ query_line))
run-IsOneStream_example = run-IsOneStream platform runners (codes "query" ∷ query_line)

abbrev answer_within : ℤ → Exchange
answer_within timeout = answer

query_command-IsContract_example :
    let r = query_with_exchange platform random query_parsed.options answer in
    let runner : ℤ → QueryOptions → Result =
      λ t o. query_with_exchange platform random o (answer_within t) in
    let f = run_query_command platform runners runner query_line in
    (f.stdout ≡ result_document r ∷ []) × (f.stderr ≡ []) × IsContract r f.code
query_command-IsContract_example =
    query_command-IsContract platform runners random answer_within query_line query_parsed
      query-parsed refl

abbrev one_random : ℕ → Random
one_random i = random

abbrev one_answer : ℕ → Exchange
one_answer i = answer

both-finish : (i : ℕ) → i < length compare_parsed.options.targets → finishes (1 ∷ 0 ∷ []) i ≡ true
unfolding finishes
both-finish i h = ground arith

compare_command-IsCompareContract_example :
    let c =
      comparing platform runners random none one_random one_answer
        (1 ∷ 0 ∷ [])
        compare_parsed.options in
    let f = run_compare_command platform runners compare_line in
    (f.stdout ≡ compare_document c ∷ []) × (f.stderr ≡ []) × IsCompareContract c f.code
compare_command-IsCompareContract_example =
    compare_command-IsCompareContract platform runners random none one_random one_answer
      (1 ∷ 0 ∷ []) compare_line compare_parsed compare-parsed both-finish refl refl

-- ===== src/Errors.antt =====
-- The errors of the package `internal/edns` and of the command. Each `fmt.Errorf` call is a
-- constructor, with the values that its text shows; the wording itself is not kept.
pub mod Laws
use encrypted_dns_skill.Base.{ℕ, ℤ, Bool, true, false}
use encrypted_dns_skill.Text.{Text}

pub data Error : Type 0 where
  -- internal/edns/dns.go
  unsupported_record_type : Text → Error
  ptr_wants_address : Error
  encode_domain_name : Error
  generate_id : Error
  pack_query : Error
  unpack_response : Error
  not_a_response : Error
  unexpected_opcode : ℕ → Error
  truncated_response : Error
  id_mismatch : Error
  question_count : ℕ → Error
  question_mismatch : Error
  unsupported_class : Text → ℕ → Error
  empty_domain_name : Error
  ip_literal : Error
  convert_idna : Error
  name_too_long : Error
  invalid_label : Error
  blocked_name : Error
  truncated_caa_tag : Error
  not_representable : Text → Error
  unexpected_representation : Text → Error
  -- internal/edns/providers.go; the second and third of these are an `UnsupportedError`
  invalid_stamp_metadata : Text → Error → Error
  protocol_unavailable : Text → Error
  provider_lacks_protocol : Text → Text → Error
  unknown_provider : Text → Error
  stamp_address_missing : Error
  stamp_key_missing : Error
  -- internal/edns/proxy.go
  proxy_not_absolute : Error
  proxy_scheme : Error
  proxy_extra_parts : Error
  connect_headers_too_long : Error
  -- internal/edns/query.go
  proxying_unavailable : Text → Error
  exchange_unavailable : Text → Error
  -- internal/edns/capabilities.go
  method_not_get_or_post : Error
  method_not_applicable : Error
  -- internal/edns/dot.go, doq.go: the framing of messages
  invalid_message_length : ℕ → Error
  short_write : Error
  read_length : Error → Error
  read_message : Error → Error
  empty_message : Error
  write_framed_query : Error → Error
  unexpected_eof : Error
  end_of_file : Error
  -- the transports; a label tells which
  select_proxy : Text → Error → Error
  connect_server : Text → Error → Error
  set_deadline : Text → Error → Error
  authenticate_server : Text → Error → Error
  not_verified : Text → Error
  unexpected_alpn : Text → Text → Error
  perform_exchange : Text → Error → Error
  -- internal/edns/proxy.go: `dialTCP`
  connect_proxy : Error → Error
  authenticate_proxy : Error → Error
  write_connect : Error → Error
  read_connect : Error → Error
  connect_status : ℕ → Error
  -- internal/edns/doq.go
  open_stream : Error → Error
  write_query : Error → Error
  finish_query_stream : Error → Error
  read_response : Error → Error
  finish_response_stream : Error → Error
  extra_response : Error
  -- internal/edns/doh.go, doh3.go
  parse_endpoint : Text → Error
  unsupported_method : Text → Error
  create_request : Error → Error
  invalid_age : Text → Error
  unexpected_http_version : Text → Error
  http_status : ℕ → Error
  unsupported_content_type : Text → Error
  read_body : Error → Error
  response_too_long : Error
  endpoint_not_https : Error
  -- internal/edns/dnscrypt.go
  unpack_query : Error
  query_context : Error → Error
  exchange_query : Error → Error
  pack_response : Error
  -- internal/edns/redirect.go
  too_many_redirects : Text → Error
  redirect_scheme : Text → Error
  redirect_domain : Text → Error
  -- internal/edns/compare.go
  max_attempts_range : Error
  too_few_targets : Error
  too_many_targets : ℕ → ℤ → Error
  attempt_timeout_range : Error
  compare_context : Error → Error
  attempts_incomplete : ℕ → ℕ → Error
  -- internal/edns/result_schema.go
  read_schema : Error → Error
  decode_schema : Error → Error
  add_schema : Error → Error
  compile_schema_failed : Error → Error
  decode_result : Error → Error
  -- cmd/ednsdiag/main.go
  flag_wants_value : Text → Error
  wants_domain : Text → Error
  unknown_option : Text → Error
  invalid_duration : Text → Error
  invalid_count : Text → Error
  timeout_range : Error
  attempt_exceeds_total : Error
  unknown_protocol : Text → Error
  target_form : Text → Error
  duplicate_target : Text → Error
  proxy_target : Text → Error
  proxy_not_applicable : Error
  targets_exceed_attempts : Error
  total_timeout_range : Error
  -- an error of code outside the repository
  external : Text → Error

-- The result of a Go function that returns a value and an `error`.
pub data Fallible {ℓ} (A : Type ℓ) : Type ℓ where
  ok : A → Fallible A
  err : Error → Fallible A

abbrev pub is_ok {ℓ} : {A : Type ℓ} → Fallible A → Bool
is_ok (ok a) = true
is_ok (err e) = false

-- `if refused { return err }`
abbrev pub refuse_if : Bool → Error → Fallible (Unit {0})
refuse_if true e = err e
refuse_if false e = ok tt

infixl 5 ◌>>=◌
abbrev pub ◌>>=◌ {ℓ κ} : {A : Type ℓ} {B : Type κ} → Fallible A → (A → Fallible B) → Fallible B
err failure >>= next = err failure
ok value >>= next = next value

-- A step that returns an `error` alone, and what comes after it.
infixl 5 ◌>>◌
abbrev pub ◌>>◌ {ℓ} : {B : Type ℓ} → Fallible (Unit {0}) → Fallible B → Fallible B
first >> next = first >>= λ _. next

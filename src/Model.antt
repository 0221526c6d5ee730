-- ===== src/Model.antt =====
-- internal/edns/model.go: the options and the results.
use encrypted_dns_skill.Base.{ℕ, ℤ, pos, Bool, false, List, [], Option, none}
use encrypted_dns_skill.Text.{Text}
use encrypted_dns_skill.Errors.{Error}

pub record QueryOptions : Type 0 where
  pub name : Text
  pub record_type : Text
  pub protocol : Text
  pub provider : Text
  pub method : Text
  pub proxy : Text

pub record CompareTarget : Type 0 where
  pub protocol : Text
  pub provider : Text
  pub method : Text

pub record CompareOptions : Type 0 where
  pub name : Text
  pub record_type : Text
  pub targets : List CompareTarget
  pub attempt_timeout : ℤ
  pub max_attempts : ℤ
  pub proxy : Text

pub record QueryInfo : Type 0 where
  pub name : Text
  pub qtype : Text

pub record ResolverInfo : Type 0 where
  pub provider : Text
  pub endpoint : Text
  pub profile : Text
  pub authentication_name : Text
  pub certificate_serial : ℕ

pub record TransportInfo : Type 0 where
  pub protocol : Text
  pub encrypted : Bool
  pub server_authenticated : Bool
  pub elapsed_ms : ℕ
  pub bootstrap : Text
  pub tls_version : Text
  pub alpn : Text
  pub http_version : Text
  pub http_age_seconds : ℤ
  pub quic_version : Text
  pub crypto_construction : Text
  pub proxy : Text

-- An SVCB parameter as it is reported: key, its number, and the value in base64.
pub record ParamValue : Type 0 where
  pub key : Text
  pub key_value : ℕ
  pub value_base64 : Text

-- The Go types that a value of an `AnswerRecord`, a `map[string]any`, has.
pub data Value : Type 0 where
  string : Text → Value
  uint8 : ℕ → Value
  uint16 : ℕ → Value
  uint32 : ℕ → Value
  strings : List Text → Value
  params : List ParamValue → Value

-- The map, its entries in the order in which the keys are first set.
abbrev pub AnswerRecord : Type 0
AnswerRecord = List (Text × Value)

-- `answers` is `none` where the slice is nil, which JSON shows as `null`.
pub record DnsInfo : Type 0 where
  pub rcode : Text
  pub rcode_value : ℕ
  pub resolver_reports_dnssec_authenticated : Bool
  pub client_validated_dnssec : Bool
  pub answers : Option (List AnswerRecord)

-- `message` is the error whose text is reported.
pub record ErrorInfo : Type 0 where
  pub class : Text
  pub message : Error

pub record Result : Type 0 where
  pub schema_version : ℕ
  pub operation : Text
  pub completed : Bool
  pub query : QueryInfo
  pub resolver : ResolverInfo
  pub transport : TransportInfo
  pub dns : DnsInfo
  pub warnings : List Text
  pub error : Option ErrorInfo

pub record CompareSummary : Type 0 where
  pub total : ℕ
  pub completed : ℕ
  pub failed : ℕ
  pub unsupported : ℕ

pub record CompareResult : Type 0 where
  pub schema_version : ℕ
  pub operation : Text
  pub completed : Bool
  pub query : QueryInfo
  pub attempts : List Result
  pub summary : CompareSummary
  pub error : Option ErrorInfo

-- The zero values of the types above.
abbrev pub no_query : QueryInfo
no_query = record { name = []; qtype = [] }

abbrev pub no_resolver : ResolverInfo
no_resolver = record {
  provider = [];
  endpoint = [];
  profile = [];
  authentication_name = [];
  certificate_serial = 0;
}

abbrev pub no_transport : TransportInfo
no_transport = record {
  protocol = [];
  encrypted = false;
  server_authenticated = false;
  elapsed_ms = 0;
  bootstrap = [];
  tls_version = [];
  alpn = [];
  http_version = [];
  http_age_seconds = pos 0;
  quic_version = [];
  crypto_construction = [];
  proxy = [];
}

abbrev pub no_dns : DnsInfo
no_dns = record {
  rcode = [];
  rcode_value = 0;
  resolver_reports_dnssec_authenticated = false;
  client_validated_dnssec = false;
  answers = none;
}

abbrev pub no_result : Result
no_result = record {
  schema_version = 0;
  operation = [];
  completed = false;
  query = no_query;
  resolver = no_resolver;
  transport = no_transport;
  dns = no_dns;
  warnings = [];
  error = none;
}

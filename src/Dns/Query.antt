-- ===== src/Dns/Query.antt =====
-- internal/edns/dns.go: `BuildQuery`. What `rand.Read` gives is the argument `random`.
pub mod Laws
pub mod Asked
pub mod Accepts
use encrypted_dns_skill.Base.{
  ℕ, ◌+◌, ◌*◌, Bool, true, false, List, [], ◌∷◌, ◌++◌, Option, none, some, if◌then◌else◌,
}
use encrypted_dns_skill.Dns.Message.{Header, Question, Message}
use encrypted_dns_skill.Dns.Name.{canonical_name, from_option}
use encrypted_dns_skill.Dns.Reverse.{unmap, reverse_name}
use encrypted_dns_skill.Dns.Tables.{class_inet, record_type}
use encrypted_dns_skill.Errors.{
  Error, unsupported_record_type, ptr_wants_address, encode_domain_name, generate_id, pack_query,
  Fallible, ok, err, ◌>>=◌, ◌>>◌,
}
use encrypted_dns_skill.Model.{QueryInfo}
use encrypted_dns_skill.Platform.{Platform, Addr, to_upper, trim_space}
use encrypted_dns_skill.Text.{Text, Bytes, codes, text_eq}

-- The two bytes of the transaction ID.
abbrev pub Random : Type 0
Random = Option (ℕ × ℕ)

-- The message that asks one question, with recursion desired.
unfoldable pub query_message : ℕ → Text → ℕ → Message
query_message id name qtype = record {
  header = record {
    id = id;
    response = false;
    op_code = 0;
    authoritative = false;
    truncated = false;
    recursion_desired = true;
    recursion_available = false;
    authentic_data = false;
    checking_disabled = false;
    rcode = 0;
  };
  questions = record { name = name; qtype = qtype; class = class_inet } ∷ [];
  answers = [];
}

pub record Built : Type 0 where
  pub wire : Bytes
  pub query : QueryInfo
  pub id : ℕ

module _ (P : Platform) where
  -- The branch for `PTR`.
  unfoldable pub ptr_name : Text → Fallible Text
  ptr_name name = do
    address ← from_option (P.parse_addr (trim_space P name)) ptr_wants_address
    ok (reverse_name (unmap address))

  unfoldable pub question_name : Text → Text → Fallible Text
  question_name type_name name =
      if text_eq type_name (codes "PTR") then ptr_name name else canonical_name P name

  unfoldable pub build_query : Random → Text → Text → Fallible Built
  build_query random name rtype = do
    let type_name = to_upper P rtype
    qtype ← from_option (record_type type_name) (unsupported_record_type rtype)
    canonical ← question_name type_name name
    dns_name ← from_option (P.new_name (canonical ++ codes ".")) encode_domain_name
    (high, low) ← from_option random generate_id
    let id = high * 256 + low
    wire ← from_option (P.pack (query_message id dns_name qtype)) pack_query
    ok (record { wire = wire; query = record { name = canonical; qtype = type_name }; id = id })

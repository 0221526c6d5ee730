-- ===== src/Tests/Fixtures.antt =====
-- A platform whose functions are constant or copy their input, an exchange that answers, and the
-- options of a query.
use encrypted_dns_skill.Base.{
  ℕ, ◌+◌, ◌*◌, ◌/◌, ◌%◌, pos, true, false, List, [], ◌∷◌, ◌++◌, Option, none, some,
}
use encrypted_dns_skill.Dns.Message.{Message, a}
use encrypted_dns_skill.Dns.Query.{Random}
use encrypted_dns_skill.Errors.{ok}
use encrypted_dns_skill.Model.{QueryOptions, CompareTarget, CompareOptions, no_transport}
use encrypted_dns_skill.Platform.{Platform, v4, Url}
use encrypted_dns_skill.Query.{Exchange, no_peer}
use encrypted_dns_skill.Text.{Bytes, codes}

abbrev pub proxy_url : Url
proxy_url = record {
  scheme = codes "http";
  user = some (codes "user", codes "secret");
  host = codes "proxy:3128";
  hostname = codes "proxy";
  path = [];
  raw_path = [];
  raw_query = [];
  fragment = [];
}

-- A response to the question for the address of example.com.
abbrev pub reply : ℕ → Message
reply id = record {
  header = record {
    id = id;
    response = true;
    op_code = 0;
    authoritative = false;
    truncated = false;
    recursion_desired = true;
    recursion_available = true;
    authentic_data = true;
    checking_disabled = false;
    rcode = 0;
  };
  questions = record { name = codes "example.com."; qtype = 1; class = 1 } ∷ [];
  answers =
      record {
        header = record { name = codes "example.com."; rtype = 1; class = 1; ttl = 300 };
        body = a (192 ∷ 0 ∷ 2 ∷ 1 ∷ []);
      }
      ∷ [];
}

abbrev pub unpack_reply : Bytes → Option Message
unpack_reply (high ∷ low ∷ rest) = some (reply (high * 256 + low))
unpack_reply _ = none

abbrev pub pack_id : Message → Option Bytes
pack_id m = some (m.header.id / 256 ∷ m.header.id % 256 ∷ [])

abbrev pub platform : Platform
platform = record {
  unicode_lower = λ s. s;
  unicode_upper = λ s. s;
  unicode_trim = λ s. s;
  unicode_fold = λ s t. false;
  to_ascii = λ s. some s;
  is_ip = λ s. false;
  parse_addr = λ s. some (v4 192 0 2 1);
  ip_string = λ l. codes "2001:db8::1";
  parse_duration = λ s. some (pos 5_000_000_000);
  atoi = λ s. some (pos 4);
  parse_url = λ s. some proxy_url;
  url_string = λ u. u.host;
  has_port = λ s. true;
  join_host_port = λ h p. h ++ codes ":" ++ p;
  new_name = λ s. some s;
  pack = pack_id;
  unpack = unpack_reply;
  svc_key_string = λ n. codes "key";
  stamp_string = λ addr key name properties. codes "sdns://" ++ name;
  dnssec_no_log = 3;
}

abbrev pub random : Random
random = some (18, 52)

-- The exchange gives back the bytes of the query, which the platform unpacks to the reply.
abbrev pub answer : Exchange
answer provider wire options = record {
  response = ok wire;
  transport = record no_transport { protocol = options.protocol; http_age_seconds = pos 10 };
  peer = no_peer;
}

abbrev pub garble : Exchange
garble provider wire options = record { response = ok []; transport = no_transport; peer = no_peer }

abbrev pub doh_options : QueryOptions
doh_options = record {
  name = codes "example.com";
  record_type = codes "a";
  protocol = codes "doh";
  provider = codes "cloudflare";
  method = codes "post";
  proxy = [];
}

abbrev pub two_targets : List CompareTarget
two_targets =
    record { protocol = codes "doh"; provider = codes "google"; method = codes "post" }
    ∷ record { protocol = codes "dot"; provider = codes "quad9"; method = codes "post" }
    ∷ []

abbrev pub comparison : CompareOptions
comparison = record {
  name = codes "example.com";
  record_type = codes "A";
  targets = two_targets;
  attempt_timeout = pos 5_000_000_000;
  max_attempts = pos 4;
  proxy = [];
}

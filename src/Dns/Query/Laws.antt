-- ===== src/Dns/Query/Laws.antt =====
-- What a built query holds.
use encrypted_dns_skill.Base.{ℕ, ◌+◌, ◌*◌, [], ◌++◌, ◌≡◌, Option, none, some, arith}
use encrypted_dns_skill.Dns.Name.{from_option}
use encrypted_dns_skill.Dns.Query.{Random, Built, query_message, question_name, build_query}
use encrypted_dns_skill.Dns.Tables.{record_type, or_zero}
use encrypted_dns_skill.Errors.{Error, ok}
use encrypted_dns_skill.Platform.{Platform, to_upper}
use encrypted_dns_skill.Text.{Text, codes}

pub from_option-eq-ok {ℓ} :
    {A : Type ℓ} (o : Option A) (e : Error) {a : A} → from_option o e ≡ ok a → o ≡ some a
unfolding from_option
from_option-eq-ok none e h = cc
from_option-eq-ok (some a) e h = ground arith

-- What the steps of `BuildQuery` gave.
pub record IsBuilt (P : Platform) (random : Random) (name rtype : Text) (b : Built) : Type 0 where
  pub type_number : ℕ
  pub dns_name : Text
  pub high : ℕ
  pub low : ℕ
  pub typed : b.query.qtype ≡ to_upper P rtype
  pub numbered : record_type (to_upper P rtype) ≡ some type_number
  pub canonical : question_name P (to_upper P rtype) name ≡ ok b.query.name
  pub named : P.new_name (b.query.name ++ codes ".") ≡ some dns_name
  pub drawn : random ≡ some (high, low)
  pub identified : b.id ≡ high * 256 + low
  pub packed : P.pack (query_message b.id dns_name type_number) ≡ some b.wire

abbrev or_nil : Option Text → Text
or_nil none = []
or_nil (some t) = t

abbrev bytes_of : Random → ℕ × ℕ
bytes_of none = (0, 0)
bytes_of (some r) = r

-- The steps of `BuildQuery` that succeeded.
pub build_query-IsBuilt :
    (P : Platform) (random : Random) (name rtype : Text) (b : Built)
    → build_query P random name rtype ≡ ok b
    → IsBuilt P random name rtype b
unfolding build_query from_option
build_query-IsBuilt P random name rtype b h = record {
  type_number = or_zero (record_type (to_upper P rtype));
  dns_name = or_nil (P.new_name (b.query.name ++ codes "."));
  high = (bytes_of random).0;
  low = (bytes_of random).1;
  typed = ground arith;
  numbered = ground arith;
  canonical = ground arith;
  named = ground arith;
  drawn = ground arith;
  identified = ground arith;
  packed = ground arith;
}

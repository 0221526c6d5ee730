-- ===== src/Dns/Message.antt =====
-- The messages of `golang.org/x/net/dns/dnsmessage`, as far as the program builds and reads them.
-- A `dnsmessage.Name` is the text that its `String` method gives.
use encrypted_dns_skill.Base.{ℕ, Bool, List}
use encrypted_dns_skill.Text.{Text, Bytes}

pub record Header : Type 0 where
  pub id : ℕ
  pub response : Bool
  pub op_code : ℕ
  pub authoritative : Bool
  pub truncated : Bool
  pub recursion_desired : Bool
  pub recursion_available : Bool
  pub authentic_data : Bool
  pub checking_disabled : Bool
  pub rcode : ℕ

pub record Question : Type 0 where
  pub name : Text
  pub qtype : ℕ
  pub class : ℕ

pub record ResourceHeader : Type 0 where
  pub name : Text
  pub rtype : ℕ
  pub class : ℕ
  pub ttl : ℕ

-- `dnsmessage.SVCParam`
pub record SvcParam : Type 0 where
  pub key : ℕ
  pub value : Bytes

pub record Soa : Type 0 where
  pub ns : Text
  pub mbox : Text
  pub serial : ℕ
  pub refresh : ℕ
  pub retry : ℕ
  pub expire : ℕ
  pub min_ttl : ℕ

-- `other` is a body that the program does not know, an `OPTResource` for one.
pub data Body : Type 0 where
  a : Bytes → Body
  aaaa : Bytes → Body
  cname : Text → Body
  mx : ℕ → Text → Body
  txt : List Text → Body
  ns : Text → Body
  ptr : Text → Body
  soa : Soa → Body
  srv : ℕ → ℕ → ℕ → Text → Body
  svcb : ℕ → Text → List SvcParam → Body
  https : ℕ → Text → List SvcParam → Body
  unknown : Bytes → Body
  other : Body

pub record Resource : Type 0 where
  pub header : ResourceHeader
  pub body : Body

pub record Message : Type 0 where
  pub header : Header
  pub questions : List Question
  pub answers : List Resource

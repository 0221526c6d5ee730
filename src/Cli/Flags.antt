-- ===== src/Cli/Flags.antt =====
-- cmd/ednsdiag/main.go: `consumeFlags` and `parseDomainAndType`.
pub mod RoundTrip
use encrypted_dns_skill.Base.{Bool, true, false, List, [], ◌∷◌, Option, none, some, if◌then◌else◌}
use encrypted_dns_skill.Errors.{Error, flag_wants_value, wants_domain, Fallible, ok, err, ◌>>=◌}
use encrypted_dns_skill.Platform.{Platform, to_upper}
use encrypted_dns_skill.Text.{Text, codes, cut, has_prefix, trim_prefix}

pub record FlagValue : Type 0 where
  pub key : Text
  pub value : Text

pub record Consumed : Type 0 where
  pub flags : List FlagValue
  pub positionals : List Text

abbrev add_positional : Text → Consumed → Fallible Consumed
add_positional t c = ok (record c { positionals = t ∷ c.positionals })

abbrev add_flag : Text → Text → Consumed → Fallible Consumed
add_flag key value c = ok (record c { flags = record { key = key; value = value } ∷ c.flags })

-- `strings.Cut(strings.TrimPrefix(argument, "--"), "=")`
unfoldable pub cut_flag : Text → Text × Text × Bool
cut_flag argument = cut (trim_prefix argument (codes "--")) b'='

-- The loop of `consumeFlags`. A flag with no `=` takes the next argument as its value, whatever
-- that is.
unfoldable pub consume_flags : List Text → Fallible Consumed
consume_flags [] = ok (record { flags = []; positionals = [] })
consume_flags (argument ∷ []) =
    let (key, value, found) = cut_flag argument in
    if has_prefix argument (codes "--")
    then if found
      then ok (record { flags = record { key = key; value = value } ∷ []; positionals = [] })
      else err (flag_wants_value key)
    else ok (record { flags = []; positionals = argument ∷ [] })
consume_flags (argument ∷ next ∷ rest) =
    let (key, value, found) = cut_flag argument in
    let after_one = consume_flags (next ∷ rest) in
    let after_two = consume_flags rest in
    if has_prefix argument (codes "--")
    then if found then after_one >>= add_flag key value else after_two >>= add_flag key next
    else after_one >>= add_positional argument

module _ (P : Platform) where
  -- `parseDomainAndType`: the domain, and the record type in capitals.
  unfoldable pub parse_domain_and_type : List Text → Text → Fallible (Text × Text)
  parse_domain_and_type (domain ∷ []) command = ok (domain, codes "A")
  parse_domain_and_type (domain ∷ rtype ∷ []) command = ok (domain, to_upper P rtype)
  parse_domain_and_type _ command = err (wants_domain command)

-- ===== src/Cli/Target.antt =====
-- cmd/ednsdiag/main.go: `parseCompareTarget`.
pub mod Laws
use encrypted_dns_skill.Base.{Bool, not, ◌&&◌, List, [], ◌∷◌, ◌++◌, if◌then◌else◌}
use encrypted_dns_skill.Capability.{known_protocol, validate_http_method}
use encrypted_dns_skill.Errors.{
  Error, unknown_protocol, target_form, method_not_get_or_post, method_not_applicable, Fallible, ok,
  err, ◌>>=◌, ◌>>◌, refuse_if,
}
use encrypted_dns_skill.Model.{CompareTarget}
use encrypted_dns_skill.Platform.{Platform, to_lower}
use encrypted_dns_skill.Provider.{find_provider}
use encrypted_dns_skill.Text.{Text, codes, split, text_eq}

-- The error of `ValidateHTTPMethod` is replaced by one of the command's own, which is told apart
-- by the same test of the method.
unfoldable pub check_method : Text → Text → Fallible (Unit {0})
check_method protocol method = elim (validate_http_method protocol method) [
  | ok _ ↦ ok tt
  | err e ↦
      if not (text_eq method (codes "get")) && not (text_eq method (codes "post"))
      then err method_not_get_or_post
      else err method_not_applicable
]

module _ (P : Platform) where
  -- The tests of a protocol, a provider and a method.
  unfoldable pub check_target : CompareTarget → Fallible CompareTarget
  check_target t = do
    refuse_if (not (known_protocol t.protocol)) (unknown_protocol t.protocol)
    provider ← find_provider P t.provider
    check_method t.protocol t.method
    ok t

  -- What the parts of the value say; `value` is shown in an error.
  unfoldable pub target_of : Text → List Text → Fallible CompareTarget
  target_of value (protocol ∷ provider ∷ []) = check_target (record {
    protocol = to_lower P protocol;
    provider = to_lower P provider;
    method = codes "post";
  })
  target_of value (protocol ∷ provider ∷ method ∷ []) = check_target (record {
    protocol = to_lower P protocol;
    provider = to_lower P provider;
    method = to_lower P method;
  })
  target_of value _ = err (target_form value)

  unfoldable pub parse_compare_target : Text → Fallible CompareTarget
  parse_compare_target value = target_of value (split value b':')

-- `target.Protocol + ":" + target.Provider + ":" + target.Method`
unfoldable pub identity : CompareTarget → Text
identity t = t.protocol ++ (codes ":" ++ (t.provider ++ (codes ":" ++ t.method)))

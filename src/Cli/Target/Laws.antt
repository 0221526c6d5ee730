-- ===== src/Cli/Target/Laws.antt =====
-- What `parseCompareTarget` accepts.
use encrypted_dns_skill.Base.{true, List, [], ◌∷◌, ◌≡◌, arith}
use encrypted_dns_skill.Capability.{known_protocol}
use encrypted_dns_skill.Cli.Target.{check_method, check_target, target_of, parse_compare_target}
use encrypted_dns_skill.Errors.{ok}
use encrypted_dns_skill.Model.{CompareTarget}
use encrypted_dns_skill.Platform.{Platform}
use encrypted_dns_skill.Provider.{find_provider}
use encrypted_dns_skill.Text.{Text}
use encrypted_dns_skill.Errors.{is_ok}

-- A target that can be compared: its protocol is known, its provider built in, and its method
-- applies.
pub record IsValidTarget (P : Platform) (t : CompareTarget) : Type 0 where
  pub protocol_known : known_protocol t.protocol ≡ true
  pub provider_found : is_ok (find_provider P t.provider) ≡ true
  pub method_ok : check_method t.protocol t.method ≡ ok tt

module _ (P : Platform) where
  check_target_sound :
      (t : CompareTarget) {t' : CompareTarget} → check_target P t ≡ ok t' → IsValidTarget P t'
  unfolding check_target
  check_target_sound t h = ground arith

  target_of_sound :
      (value : Text) (parts : List Text) {t : CompareTarget}
      → target_of P value parts ≡ ok t
      → IsValidTarget P t
  unfolding target_of
  target_of_sound value [] h = cc
  target_of_sound value (a ∷ []) h = cc
  target_of_sound value (a ∷ b ∷ []) h = check_target_sound _ h
  target_of_sound value (a ∷ b ∷ c ∷ []) h = check_target_sound _ h
  target_of_sound value (a ∷ b ∷ c ∷ d ∷ l) h = cc

  pub parse_compare_target-IsValidTarget :
      (value : Text) {t : CompareTarget} → parse_compare_target P value ≡ ok t → IsValidTarget P t
  unfolding parse_compare_target
  parse_compare_target-IsValidTarget value h = target_of_sound value _ h

-- ===== src/Cli/Flags/RoundTrip.antt =====
-- Printing flags and reading them back.
use encrypted_dns_skill.Base.{true, false, List, [], ◌∷◌, ◌++◌, map, ◌≡◌, refl, All, arith}
use encrypted_dns_skill.Cli.Flags.{FlagValue, Consumed, cut_flag, consume_flags}
use encrypted_dns_skill.Errors.{ok}
use encrypted_dns_skill.Text.{Text, codes, has_prefix}
use encrypted_dns_skill.Text.Affix.{has_prefix_append, trim_prefix_append}
use encrypted_dns_skill.Text.Split.{Lacks, cut_at}

-- `--key=value`
abbrev pub render : FlagValue → Text
render f = codes "--" ++ (f.key ++ b'=' ∷ f.value)

-- A positional argument is none that looks like a flag.
abbrev pub IsPositional : Text → Type 0
IsPositional t = has_prefix t (codes "--") ≡ false

cut_flag-render : (f : FlagValue) → Lacks b'=' f.key → cut_flag (render f) ≡ (f.key, f.value, true)
unfolding cut_flag
cut_flag-render f h =
    rw (trim_prefix_append (codes "--") (f.key ++ b'=' ∷ f.value)) (cut_at f.key f.value b'=' h)

render-has_prefix : (f : FlagValue) → has_prefix (render f) (codes "--") ≡ true
render-has_prefix f = has_prefix_append (codes "--") (f.key ++ b'=' ∷ f.value)

consume_cut :
    (t : Text) (f : FlagValue) (rest : List Text) (c : Consumed)
    → has_prefix t (codes "--") ≡ true
    → cut_flag t ≡ (f.key, f.value, true)
    → consume_flags rest ≡ ok c
    → consume_flags (t ∷ rest) ≡ ok (record c { flags = f ∷ c.flags })
unfolding consume_flags
consume_cut t f [] c p q h = rw (p, consume_flags, q) (ground arith)
consume_cut t f (next ∷ rest) c p q h = rw (p, consume_flags, q, h) refl

consume_flag :
    (f : FlagValue) (rest : List Text) (c : Consumed)
    → Lacks b'=' f.key
    → consume_flags rest ≡ ok c
    → consume_flags (render f ∷ rest) ≡ ok (record c { flags = f ∷ c.flags })
consume_flag f rest c k h =
    consume_cut (render f) f rest c (render-has_prefix f) (cut_flag-render f k) h

consume_positional :
    (t : Text) (rest : List Text) (c : Consumed)
    → IsPositional t
    → consume_flags rest ≡ ok c
    → consume_flags (t ∷ rest) ≡ ok (record c { positionals = t ∷ c.positionals })
unfolding consume_flags
consume_positional t [] c k h = ground arith
consume_positional t (next ∷ rest) c k h = ground arith

consume_positionals :
    (l : List Text)
    → All IsPositional l
    → consume_flags l ≡ ok (record { flags = []; positionals = l })
unfolding consume_flags
consume_positionals [] h = refl
consume_positionals (t ∷ l) (p, h) = consume_positional t l _ p (consume_positionals l h)

-- Flags whose keys have no `=`, each written `--key=value`, and behind them positional arguments
-- that do not begin with `--`, are read as these flags and these positionals, in their order.
pub consume-render :
    (flags : List FlagValue) (positionals : List Text)
    → All (λ f. Lacks b'=' f.key) flags
    → All IsPositional positionals
    → consume_flags (map render flags ++ positionals)
      ≡ ok (record { flags = flags; positionals = positionals })
consume-render [] positionals hf hp = consume_positionals positionals hp
consume-render (f ∷ flags) positionals (k, hf) hp =
    consume_flag f (map render flags ++ positionals) _ k (consume-render flags positionals hf hp)

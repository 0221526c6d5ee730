-- ===== src/Schema.antt =====
-- JSON Schema (draft 2020-12), as far as schemas/result-v1.schema.json uses it: a schema is a
-- conjunction of keywords, and a keyword says nothing of a value of another type.
pub mod Result
pub mod Answers
pub mod Normalized
pub mod Parts
pub mod Single
pub mod Comparison
pub mod Replies
pub mod Carried
pub mod Query
pub mod Compare
pub mod Command
pub mod Path
pub mod Validate
use encrypted_dns_skill.Base.{
  ℕ, ◌+◌, ℤ, pos, Bool, true, false, not, ◌&&◌, ◌||◌, List, [], ◌∷◌, ◌==◌, leb, ltℤ, if◌then◌else◌,
}
use encrypted_dns_skill.Json.{
  Json, null, boolean, number, string, array, object, Fields, all_items, count_items, all_fields,
  has_key,
}
use encrypted_dns_skill.Text.{Text, text_eq}

-- `properties` has the keyword `additionalProperties: false` with it where its flag is set.
mutual
  pub data Schema : Type 0 where
    type_string type_boolean type_integer type_array type_object : Schema
    minimum : ℕ → Schema
    maximum : ℕ → Schema
    enum : List Text → Schema
    const_boolean : Bool → Schema
    const_number : ℕ → Schema
    items : Schema → Schema
    max_items : ℕ → Schema
    required : List Text → Schema
    properties : (closed : Bool) → Properties → Schema
    both : Schema → Schema → Schema
    none_of : Schema → Schema
    one_of : Schemas → Schema
    if_then_else : Schema → Schema → Schema → Schema

  pub data Properties : Type 0 where
    no_properties : Properties
    property : Text → Schema → Properties → Properties

  pub data Schemas : Type 0 where
    no_schemas : Schemas
    alternative : Schema → Schemas → Schemas

-- `{ "const": … }` of a text
abbrev pub const_text : Text → Schema
const_text t = enum (t ∷ [])

abbrev pub is_listed : List Text → Text → Bool
is_listed [] t = false
is_listed (s ∷ l) t = text_eq s t || is_listed l t

abbrev pub has_keys : Fields → List Text → Bool
has_keys fs [] = true
has_keys fs (k ∷ ks) = has_key fs k && has_keys fs ks

abbrev pub bit : Bool → ℕ
bit true = 1
bit false = 0

abbrev pub same_bool : Bool → Bool → Bool
same_bool true b = b
same_bool false b = not b

unfoldable mutual
  pub conforms : Schema → Json → Bool
  conforms type_string (string t) = true
  conforms type_string v = false
  conforms type_boolean (boolean b) = true
  conforms type_boolean v = false
  conforms type_integer (number n) = true
  conforms type_integer v = false
  conforms type_array (array vs) = true
  conforms type_array v = false
  conforms type_object (object fs) = true
  conforms type_object v = false
  conforms (minimum m) (number n) = not (ltℤ n (pos m))
  conforms (minimum m) v = true
  conforms (maximum m) (number n) = not (ltℤ (pos m) n)
  conforms (maximum m) v = true
  conforms (enum l) (string t) = is_listed l t
  conforms (enum l) v = false
  conforms (const_boolean b) (boolean c) = same_bool b c
  conforms (const_boolean b) v = false
  conforms (const_number m) (number (pos n)) = m == n
  conforms (const_number m) v = false
  conforms (items s) (array vs) = all_items (conforms s) vs
  conforms (items s) v = true
  conforms (max_items m) (array vs) = leb (count_items vs) m
  conforms (max_items m) v = true
  conforms (required ks) (object fs) = has_keys fs ks
  conforms (required ks) v = true
  conforms (properties closed ps) (object fs) = all_fields (conforms_property ps closed) fs
  conforms (properties closed ps) v = true
  conforms (both s t) v = conforms s v && conforms t v
  conforms (none_of s) v = not (conforms s v)
  conforms (one_of ss) v = count_conforming ss v == 1
  conforms (if_then_else s t u) v = elim (conforms s v) [
    | true ↦ conforms t v
    | false ↦ conforms u v
  ]

  -- A value under a key, where the properties that are not listed are refused or not.
  pub conforms_property : Properties → Bool → Text → Json → Bool
  conforms_property no_properties closed k v = not closed
  conforms_property (property j s ps) closed k v = elim (text_eq j k) [
    | true ↦ conforms s v
    | false ↦ conforms_property ps closed k v
  ]

  pub count_conforming : Schemas → Json → ℕ
  count_conforming no_schemas v = 0
  count_conforming (alternative s ss) v = bit (conforms s v) + count_conforming ss v

-- ===== src/Json.antt =====
-- The JSON values that the program writes. A string is the bytes of the Go string.
pub mod Encode
use encrypted_dns_skill.Base.{ℕ, ◌+◌, ℤ, pos, Bool, true, false, ◌&&◌, ◌||◌, List, [], ◌∷◌}
use encrypted_dns_skill.Text.{Text, text_eq}

mutual
  pub data Json : Type 0 where
    null : Json
    boolean : Bool → Json
    number : ℤ → Json
    string : Text → Json
    array : Items → Json
    object : Fields → Json

  pub data Items : Type 0 where
    no_items : Items
    item : Json → Items → Items

  pub data Fields : Type 0 where
    no_fields : Fields
    field : Text → Json → Fields → Fields

abbrev pub all_items : (Json → Bool) → Items → Bool
all_items p no_items = true
all_items p (item v rest) = p v && all_items p rest

abbrev pub count_items : Items → ℕ
count_items no_items = 0
count_items (item v rest) = 1 + count_items rest

abbrev pub all_fields : (Text → Json → Bool) → Fields → Bool
all_fields p no_fields = true
all_fields p (field k v rest) = p k v && all_fields p rest

unfoldable pub has_key : Fields → Text → Bool
has_key no_fields k = false
has_key (field j v rest) k = text_eq j k || has_key rest k

abbrev pub items_of {ℓ} : {A : Type ℓ} → (A → Json) → List A → Items
items_of f [] = no_items
items_of f (x ∷ xs) = item (f x) (items_of f xs)

-- ===== src/Serde/Messages.antt =====
-- What the serialization of every message in rust/src/cosmos.ics23.v1.serde.rs does with its fields:
-- a field at its default is left out, the others are written in order, and the loop of `visit_map`
-- reads them in any order. An error is `none`.
pub mod Laws
pub mod Carries
use Prim.Native.String.{String}
use ics.Prelude.{Bool, Option, none, some, List, [], ◌∷◌, ◌++◌, if◌then◌else◌, is_empty, map}
use ics.Prelude.Int.{ℤ, pos, eqb_ℤ}
use ics.Serde.Values.{
  Value, null, boolean, sequence, structure, Fields, items_of, values_of, members_of, fields_of,
  number_value,
}
use ics.Serde.Enums.{and_then}
use ics.Serde.Fields.{Pbjson}
use mathlib.Core.Option

-- `Serialize` and `Deserialize` of a message that others hold: the interface of the two.
pub record Message (A : Type 0) : Type 0 where
  pub serialize : A → Option Fields
  pub deserialize : Fields → Option A

-- The results in order, up to the first that fails.
abbrev pub collect {ℓ κ} : {A : Type ℓ} {B : Type κ} → (A → Option B) → List A → Option (List B)
collect f [] = some []
collect f (x ∷ xs) = let rest = collect f xs in and_then (f x) λ y. Option.map (λ ys. y ∷ ys) rest

-- The calls of `serialize_field`, one after the other.
abbrev pub write_fields : List (Option Fields) → Option Fields
write_fields [] = some []
write_fields (field ∷ fields) =
    let rest = write_fields fields in
    and_then field λ written. Option.map (λ more. written ++ more) rest

module _ {A : Type 0} (m : Message A) where
  abbrev pub value_of : A → Option Value
  value_of a = Option.map (λ fields. structure (members_of fields)) (m.serialize a)

  -- `if let Some(v) = ...`
  abbrev pub message_field : String → Option A → Option Fields
  message_field name none = some []
  message_field name (some a) = Option.map (λ value. (name, value) ∷ []) (value_of a)

  -- A field that holds a vector of messages.
  abbrev pub messages_field : String → List A → Option Fields
  messages_field name [] = some []
  messages_field name (a ∷ messages) =
      Option.map (λ values. (name, sequence (items_of values)) ∷ [])
        (collect value_of (a ∷ messages))

  -- `next_value` for a message, an `Option` of one and a vector of them.
  abbrev pub message_of : Value → Option A
  message_of (structure members) = m.deserialize (fields_of members)
  message_of _ = none

  abbrev pub option_of : Value → Option (Option A)
  option_of null = some none
  option_of value = Option.map some (message_of value)

  abbrev pub messages_of : Value → Option (List A)
  messages_of (sequence items) = collect message_of (values_of items)
  messages_of _ = none

abbrev pub number_field : String → ℤ → Fields
number_field name x = if eqb_ℤ x (pos 0) then [] else (name, number_value x) ∷ []

abbrev pub numbers_field : String → List ℤ → Fields
numbers_field name xs =
    if is_empty xs then [] else (name, sequence (items_of (map number_value xs))) ∷ []

abbrev pub boolean_field : String → Bool → Fields
boolean_field name b = if b then (name, boolean b) ∷ [] else []

abbrev pub numbers_of : ⦃pbjson : Pbjson⦄ → Value → Option (List ℤ)
numbers_of ⦃pbjson⦄ (sequence items) = collect pbjson.number_of (values_of items)
numbers_of _ = none

abbrev pub boolean_of : Value → Option Bool
boolean_of (boolean b) = some b
boolean_of _ = none

-- The loop of `visit_map`: the name of a field is read first, then its value into the variables.
unfoldable pub visit_map :
    {F P : Type 0} → (String → Option F) → (F → Value → P → Option P) → Fields → P → Option P
visit_map field_of read [] parts = some parts
visit_map field_of read ((name, value) ∷ fields) parts =
    and_then (field_of name)
      λ field. and_then (read field value parts) (visit_map field_of read fields)

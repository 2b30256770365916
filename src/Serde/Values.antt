-- ===== src/Serde/Values.antt =====
-- The values that a self-describing format such as JSON writes and hands back, as the code of
-- rust/src/cosmos.ics23.v1.serde.rs sees them.
use Prim.Native.String.{String}
use ics.Prelude.{ℕ, ◌≡◌, refl, ap, Bool, List, [], ◌∷◌}
use ics.Prelude.Int.{ℤ, pos, negsuc}

-- A structure is a map with its entries in order.
mutual
  pub data Value : Type 0 where
    null : Value
    boolean : Bool → Value
    int64 : ℤ → Value
    uint64 : ℕ → Value
    string : String → Value
    sequence : Items → Value
    structure : Members → Value

  pub data Items : Type 0 where
    nil : Items
    cons : Value → Items → Items

  pub data Members : Type 0 where
    end : Members
    member : String → Value → Members → Members

-- A struct that is written or read: its fields in order.
abbrev pub Fields : Type 0
Fields = List (String × Value)

abbrev pub items_of : List Value → Items
items_of [] = nil
items_of (value ∷ values) = cons value (items_of values)

abbrev pub values_of : Items → List Value
values_of nil = []
values_of (cons value items) = value ∷ values_of items

abbrev pub members_of : Fields → Members
members_of [] = end
members_of ((name, value) ∷ fields) = member name value (members_of fields)

abbrev pub fields_of : Members → Fields
fields_of end = []
fields_of (member name value members) = (name, value) ∷ fields_of members

-- An i32 as it is read back: a number that is not negative is a u64.
abbrev pub number_value : ℤ → Value
number_value (pos n) = uint64 n
number_value (negsuc n) = int64 (negsuc n)

pub values_of-items_of : (values : List Value) → values_of (items_of values) ≡ values
values_of-items_of [] = refl
values_of-items_of (value ∷ values) = ap (λ v. value ∷ v) (values_of-items_of values)

pub fields_of-members_of : (fields : Fields) → fields_of (members_of fields) ≡ fields
fields_of-members_of [] = refl
fields_of-members_of ((name, value) ∷ fields) =
    ap (λ f. (name, value) ∷ f) (fields_of-members_of fields)

-- ===== src/Serde/Messages/Carries.antt =====
-- How the loop of `visit_map` takes in what each kind of field writes.
use Prim.Native.String.{String}
use ics.Prelude.{
  ◌≡◌, refl, ap, ◌∙◌, inl, inr, Bool, true, false, Option, none, some, List, [], ◌∷◌, ◌++◌, All,
  Bool-cases, map,
}
use ics.Prelude.Bytes.{Bytes}
use ics.Prelude.Int.{ℤ, IsI32, pos, eqb_ℤ}
use ics.Proto.Enums.{HashOp, hash_op_i32}
use ics.Proto.Prost.{Prost, ProstLaws}
use ics.Serde.Values.{
  Value, string, boolean, sequence, Fields, items_of, number_value, values_of-items_of,
}
use ics.Serde.Enums.{serialize_hash_op, deserialize_hash_op}
use ics.Serde.Enums.Laws.{hash_op_back}
use ics.Serde.Fields.{Pbjson, PbjsonLaws, bytes_field, hash_field, kept_bytes, kept_enum}
use ics.Serde.Messages.{
  Message, collect, write_fields, message_field, messages_field, message_of, option_of, messages_of,
  number_field, numbers_field, boolean_field, numbers_of, boolean_of, visit_map,
}
use mathlib.Core.Option
use ics.Serde.Messages.Laws.{Returns, IsNoneOr, kept_list, kept_true, value_of-back, collect-back}

collect-numbers :
    ⦃pbjson : Pbjson⦄ (base64 : PbjsonLaws pbjson) (xs : List ℤ)
    → All IsI32 xs
    → collect pbjson.number_of (map number_value xs) ≡ some xs
collect-numbers base64 [] h = refl
collect-numbers base64 (x ∷ xs) (h, hs) =
    rw (base64.number_of-value x h, collect-numbers base64 xs hs)

-- The loop takes what a field writes from one state of the variables to another.
module _ {F P : Type 0} (field_of : String → Option F) (read : F → Value → P → Option P) where
  pub record Carries (field : Option Fields) (p q : P) : Type 0 where
    pub fields : Fields
    pub written : field ≡ some fields
    pub taken :
        (rest : Fields)
        → visit_map field_of read (fields ++ rest) p ≡ visit_map field_of read rest q

  -- The fields of a message, one after the other.
  infixr 30 ◌▸◌
  pub data CarriesAll : List (Option Fields) → P → P → Type 0 where
    done : {p : P} → CarriesAll [] p p
    ◌▸◌ :
        {field : Option Fields} {fields : List (Option Fields)} {p q r : P}
        → Carries field p q
        → CarriesAll fields q r
        → CarriesAll (field ∷ fields) p r

module _ {F P : Type 0} {field_of : String → Option F} {read : F → Value → P → Option P} where
  pub CarriesAll-reads :
      {fields : List (Option Fields)} {p q : P}
      → CarriesAll field_of read fields p q
      → (written : Fields) × (write_fields fields ≡ some written)
        × (visit_map field_of read written p ≡ some q)
  unfolding visit_map
  CarriesAll-reads done = ([], refl, refl)
  CarriesAll-reads (c ▸ more) =
      let (written, all_written, all_read) = CarriesAll-reads more in
      (c.fields ++ written, rw (c.written, all_written), c.taken written ∙ all_read)

  pub carry_nothing :
      {field : Option Fields} (p : P) → field ≡ some [] → Carries field_of read field p p
  carry_nothing p h = record { fields = []; written = h; taken = λ rest. refl }

  module _ (name : String) (field : F) (named : field_of name ≡ some field) where
    -- One entry, which the loop reads.
    carry_entry :
        {written : Option Fields} (value : Value) {p q : P}
        → written ≡ some ((name, value) ∷ [])
        → read field value p ≡ some q
        → Carries field_of read written p q
    unfolding visit_map
    carry_entry value w h = record {
      fields = (name, value) ∷ [];
      written = w;
      taken = λ rest. rw (named, h);
    }

    module _ {A : Type 0} (m : Message A) where
      pub carry_message :
          (put : Option A → P) (message : Option A)
          → ((value : Value) → read field value (put none) ≡ Option.map put (option_of m value))
          → IsNoneOr (Returns m) message
          → Carries field_of read (message_field m name message) (put none) (put message)
      carry_message put none stores h = carry_nothing (put none) refl
      carry_message put (some a) stores h =
          let (value, written, _, back) = value_of-back m a h in
          carry_entry value (rw written) (stores value ∙ ap (Option.map put) back)

      pub carry_messages :
          (put : Option (List A) → P) (messages : List A)
          → ((value : Value)
              → read field value (put none)
                ≡ Option.map (λ xs. put (some xs)) (messages_of m value))
          → All (Returns m) messages
          → Carries field_of read
              (messages_field m name messages)
              (put none)
              (put (kept_list messages))
      carry_messages put [] stores h = carry_nothing (put none) refl
      carry_messages put (a ∷ messages) stores h =
          let (values, written, back) = collect-back m (a ∷ messages) h in
          carry_entry (sequence (items_of values))
            (ap (Option.map λ values. (name, sequence (items_of values)) ∷ []) written)
            (stores (sequence (items_of values))
              ∙ ap (Option.map λ xs. put (some xs))
                  (ap (collect (message_of m)) (values_of-items_of values) ∙ back))

    pub carry_boolean :
        (put : Option Bool → P) (b : Bool)
        → ((value : Value)
            → read field value (put none) ≡ Option.map (λ x. put (some x)) (boolean_of value))
        → Carries field_of read (some (boolean_field name b)) (put none) (put (kept_true b))
    carry_boolean put false stores = carry_nothing (put none) refl
    carry_boolean put true stores = carry_entry (boolean true) refl (stores (boolean true))

    module _ ⦃pbjson : Pbjson⦄ (base64 : PbjsonLaws pbjson) where
      pub carry_bytes :
          (put : Option Bytes → P) (bytes : Bytes)
          → ((value : Value)
              → read field value (put none)
                ≡ Option.map (λ x. put (some x)) (pbjson.bytes_of value))
          → Carries field_of read
              (some (bytes_field name bytes))
              (put none)
              (put (kept_bytes bytes))
      carry_bytes put [] stores = carry_nothing (put none) refl
      carry_bytes put (b ∷ bytes) stores =
          let value = string (pbjson.encode (b ∷ bytes)) in
          carry_entry value refl
            (stores value ∙ ap (Option.map λ x. put (some x)) (base64.bytes_of-encode (b ∷ bytes)))

      pub carry_number :
          (put : Option ℤ → P) (x : ℤ)
          → ((value : Value)
              → read field value (put none)
                ≡ Option.map (λ x. put (some x)) (pbjson.number_of value))
          → IsI32 x
          → Carries field_of read (some (number_field name x)) (put none) (put (kept_enum x))
      carry_number put x stores h = elim (Bool-cases (eqb_ℤ x (pos 0))) [
        | inl unset ↦ rw unset (carry_nothing (put none) refl)
        | inr set ↦ rw set (
            carry_entry (number_value x) refl (
              stores (number_value x)
              ∙ ap (Option.map λ x. put (some x)) (base64.number_of-value x h)))
      ]

      pub carry_numbers :
          (put : Option (List ℤ) → P) (xs : List ℤ)
          → ((value : Value)
              → read field value (put none) ≡ Option.map (λ xs. put (some xs)) (numbers_of value))
          → All IsI32 xs
          → Carries field_of read (some (numbers_field name xs)) (put none) (put (kept_list xs))
      carry_numbers put [] stores h = carry_nothing (put none) refl
      carry_numbers put (x ∷ xs) stores h =
          let values = map number_value (x ∷ xs) in
          carry_entry (sequence (items_of values)) refl (
            stores (sequence (items_of values))
            ∙ ap (Option.map λ xs. put (some xs)) (
                ap (collect pbjson.number_of) (values_of-items_of values)
                ∙ collect-numbers base64 (x ∷ xs) h))

    pub carry_hash :
        ⦃prost : Prost⦄ (laws : ProstLaws prost) (put : Option ℤ → P) (x : ℤ) (hash : HashOp)
        → ((value : Value)
            → read field value (put none)
              ≡ Option.map (λ x. put (some x)) (Option.map hash_op_i32 (deserialize_hash_op value)))
        → x ≡ hash_op_i32 hash
        → Carries field_of read (hash_field name x) (put none) (put (kept_enum x))
    unfolding deserialize_hash_op
    carry_hash laws put x hash stores h = elim (Bool-cases (eqb_ℤ x (pos 0))) [
      | inl unset ↦ rw unset (carry_nothing (put none) refl)
      | inr set ↦ rw set (
          carry_entry (string (serialize_hash_op hash)) (rw (h, laws.try_hash_op_of_i32 hash))
            (stores (string (serialize_hash_op hash)) ∙ rw (hash_op_back hash, h)))
    ]

-- ===== src/Serde/Messages/Laws.antt =====
-- Messages that are read back from what they write, and the vectors and options of them.
use ics.Prelude.{
  ◌≡◌, refl, ap, ◌∙◌, Bool, true, false, Option, none, some, List, [], ◌∷◌, All, arith,
  if◌then◌else◌, is_empty,
}
use ics.Serde.Values.{Value, structure, Fields, members_of, fields_of-members_of}
use ics.Serde.Enums.{and_then}
use ics.Serde.Messages.{Message, collect, value_of, message_of, option_of}
use mathlib.Core.Option

-- The message is written, and read back from what was written.
abbrev pub Returns : {A : Type 0} → Message A → A → Type 0
Returns m a = (fields : Fields) × (m.serialize a ≡ some fields) × (m.deserialize fields ≡ some a)

-- A message that is left out, or one with a property.
abbrev pub IsNoneOr : {A : Type 0} → (A → Type 0) → Option A → Type 0
IsNoneOr P none = Unit
IsNoneOr P (some a) = P a

pub IsNoneOr-imp :
    {A : Type 0} {P Q : A → Type 0}
    → ((a : A) → P a → Q a)
    → (o : Option A) → IsNoneOr P o
    → IsNoneOr Q o
IsNoneOr-imp f none h = tt
IsNoneOr-imp f (some a) h = f a h

-- What is known of a list or a Boolean after it was read, if it was written.
abbrev pub kept_list {ℓ} : {A : Type ℓ} → List A → Option (List A)
kept_list xs = if is_empty xs then none else some xs

abbrev pub kept_true : Bool → Option Bool
kept_true b = if b then some b else none

pub get_or-kept_list {ℓ} : {A : Type ℓ} (xs : List A) → Option.get_or (kept_list xs) [] ≡ xs
get_or-kept_list [] = refl
get_or-kept_list (x ∷ xs) = refl

pub get_or-kept_true : (b : Bool) → Option.get_or (kept_true b) false ≡ b
get_or-kept_true true = refl
get_or-kept_true false = refl

pub back-and_then {ℓ κ} :
    {A : Type ℓ} {B : Type κ} (o : Option A) (f : A → Option B) {b : B}
    → (a : A) × (o ≡ some a) × (f a ≡ some b)
    → and_then o f ≡ some b
back-and_then o f (a, e, h) = rw e h

pub and_then-back {ℓ κ} :
    {A : Type ℓ} {B : Type κ} (o : Option A) (f : A → Option B) {b : B}
    → and_then o f ≡ some b
    → (a : A) × (o ≡ some a) × (f a ≡ some b)
and_then-back none f e = ground arith
and_then-back (some a) f e = (a, refl, e)

module _ {A : Type 0} (m : Message A) where
  pub value_of-back :
      (a : A)
      → Returns m a
      → (value : Value) × (value_of m a ≡ some value)
        × (message_of m value ≡ some a)
        × (option_of m value ≡ some (some a))
  value_of-back a (fields, written, read) =
      let back : message_of m (structure (members_of fields)) ≡ some a =
        ap m.deserialize (fields_of-members_of fields) ∙ read in
      (
        structure (members_of fields),
        ap (Option.map (λ fields. structure (members_of fields))) written,
        back,
        ap (Option.map some) back,
      )

  pub collect-back :
      (messages : List A)
      → All (Returns m) messages
      → (values : List Value) × (collect (value_of m) messages ≡ some values)
        × (collect (message_of m) values ≡ some messages)
  collect-back [] h = ([], refl, refl)
  collect-back (a ∷ messages) (h, hs) =
      let (value, written, read, _) = value_of-back a h in
      let (values, all_written, all_read) = collect-back messages hs in
      (value ∷ values, rw (written, all_written), rw (read, all_read))

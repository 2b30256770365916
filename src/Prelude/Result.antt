-- ===== src/Prelude/Result.antt =====
-- `anyhow::Result` with one more outcome: `panic` is a Rust panic (a failed `unwrap`, a slice out of
-- bounds, a division by 0), which ends the call and is no `Err`. Each message of the code is a constructor of `Error`;
-- the values that a message prints are dropped.
use mathlib.Core.Path.{◌≡◌, refl}
use mathlib.Core.Logic.{◌≢◌, ◌↔◌, ◌⊎◌, inl, inr}
use mathlib.Core.Bool.{Bool, true, false}
use mathlib.Core.Option.{Option, none, some}
use native.Mathlib.Omega.{arith}

pub data Error : Type 0 where
  missing_child_hash missing_leaf_data invalid_length unsupported_length_op : Error
  key_mismatch value_mismatch root_mismatch : Error
  left_not_before_key right_not_after_key : Error
  no_left_nor_right inner_spec_missing : Error
  key_not_set value_not_set child_size_exceeded leaf_not_set : Error
  too_few_inner_ops too_many_inner_ops leaf_or_spec_missing : Error
  unexpected_hash unexpected_prehash_key unexpected_prehash_value unexpected_length : Error
  incorrect_leaf_prefix inner_with_leaf_prefix inner_prefix_short inner_prefix_long : Error
  bad_child_size bad_max_prefix_length malformed_suffix specs_required : Error
  step_not_leftmost not_left_neighbor padding_unmatched branch_not_found : Error
  height_undecodable wrong_height size_undecodable wrong_size : Error
  version_undecodable wrong_version : Error
  bad_leaf_prefix bad_layer_prefix bad_hash_op : Error

pub data Result {ℓ} (A : Type ℓ) : Type ℓ where
  ok : A → Result A
  panic : Result A
  err : Error → Result A

infixl 5 ◌>>=◌ ◌>>◌
abbrev pub ◌>>=◌ {ℓ κ} : {A : Type ℓ} {B : Type κ} → Result A → (A → Result B) → Result B
panic >>= next = panic
err message >>= next = err message
ok a >>= next = next a

-- The `?` of a call that returns nothing.
abbrev pub ◌>>◌ {κ} : {B : Type κ} → Result (Unit {0}) → Result B → Result B
check >> rest = check >>= λ done. rest

-- `ensure!`
abbrev pub ensure : Bool → Error → Result (Unit {0})
ensure false message = err message
ensure true message = ok tt

-- `unwrap` of an option.
abbrev pub unwrap {ℓ} : {A : Type ℓ} → Option A → Result A
unwrap none = panic
unwrap (some a) = ok a

-- `ok_or_else`
abbrev pub ok_or {ℓ} : {A : Type ℓ} → Option A → Error → Result A
ok_or none e = err e
ok_or (some a) e = ok a

module _ {ℓ κ} {A : Type ℓ} {B : Type κ} where
  -- A sequence that succeeds does so at each of its two steps.
  pub >>=-eq-ok :
      (first : Result A) (next : A → Result B) {out : B}
      → (first >>= next) ≡ ok out
      → (value : A) × (first ≡ ok value) × (next value ≡ ok out)
  >>=-eq-ok panic next e = cc
  >>=-eq-ok (err message) next e = cc
  >>=-eq-ok (ok value) next e = (value, refl, e)

  pub >>=-ne-panic :
      (m : Result A) (f : A → Result B)
      → m ≢ panic
      → ((a : A) → m ≡ ok a → f a ≢ panic)
      → (m >>= f) ≢ panic
  >>=-ne-panic (ok a) f h k = k a refl
  >>=-ne-panic (err e) f h k = λ p. cc
  >>=-ne-panic panic f h k = λ _. h refl

module _ {ℓ} {B : Type ℓ} where
  pub >>-eq-ok :
      (check : Result (Unit {0})) (rest : Result B) {out : B}
      → (check >> rest) ≡ ok out
      → (check ≡ ok tt) × (rest ≡ ok out)
  >>-eq-ok panic rest e = cc
  >>-eq-ok (err message) rest e = cc
  >>-eq-ok (ok tt) rest e = (refl, e)

  pub >>-eq-ok_of :
      (m : Result (Unit {0})) (k : Result B) {b : B} → m ≡ ok tt → k ≡ ok b → (m >> k) ≡ ok b
  >>-eq-ok_of m k h e = rw h e

pub ensure_iff : (b : Bool) (e : Error) → (ensure b e ≡ ok tt) ↔ (b ≡ true)
ensure_iff b e = ground arith

pub ensure-ne-panic : (b : Bool) (e : Error) → ensure b e ≢ panic
ensure-ne-panic b e = ground arith

pub Result-cases {ℓ} :
    {A : Type ℓ} (r : Result A)
    → ((a : A) × (r ≡ ok a)) ⊎ (((e : Error) × (r ≡ err e)) ⊎ (r ≡ panic))
Result-cases (ok a) = inl (a, refl)
Result-cases (err e) = inr (inl (e, refl))
Result-cases panic = inr (inr refl)

pub ok_inj {ℓ} : {A : Type ℓ} {a b : A} → ok a ≡ ok b → a ≡ b
ok_inj e = cc

-- A result that is no panic.
pub data IsSafe {ℓ} {A : Type ℓ} : Result A → Type ℓ where
  returns : {a : A} → IsSafe (ok a)
  fails : {e : Error} → IsSafe (err e)

module _ {ℓ} {A : Type ℓ} where
  infixl 1 ◌then◌
  pub ◌then◌ :
      {B : Type ℓ} {m : Result A} {f : A → Result B}
      → IsSafe m
      → ((a : A) → IsSafe (f a))
      → IsSafe (m >>= f)
  returns {a} then k = k a
  fails then k = fails

  pub IsSafe-ne-panic : {r : Result A} → IsSafe r → r ≢ panic
  IsSafe-ne-panic returns = λ e. cc
  IsSafe-ne-panic fails = λ e. cc

  pub ok_or-IsSafe : (o : Option A) (e : Error) → IsSafe (ok_or o e)
  ok_or-IsSafe none e = fails
  ok_or-IsSafe (some a) e = returns

pub ensure-IsSafe : (b : Bool) (e : Error) → IsSafe (ensure b e)
ensure-IsSafe true e = returns
ensure-IsSafe false e = fails

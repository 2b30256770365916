-- ===== src/Prelude/Adjacent.antt =====
-- Where the first, the last and two neighbouring elements of numbered lists stand, if none of the lists
-- is empty.
use Prim.Native.Nat.{ℕ, zero, suc, ◌+◌, ◌<◌}
use mathlib.Core.Path.{◌≡◌, refl, sym, ap, ◌∙◌, subst}
use mathlib.Core.Logic.{◌≢◌, ◌⊎◌, inl, inr}
use mathlib.Core.List.{List, [], ◌∷◌, ◌++◌, append-nil}
use native.Mathlib.Omega.{arith}
use ics.Prelude.Numbered.{join}
use ics.Prelude.Lists.{All}

module _ {ℓ} {A : Type ℓ} where
  -- The list begins with, ends with, or has next to each other.
  abbrev pub Starts : A → List A → Type ℓ
  Starts a xs = (after : List A) × (xs ≡ a ∷ after)

  abbrev pub Ends : A → List A → Type ℓ
  Ends a xs = (before : List A) × (xs ≡ before ++ a ∷ [])

  abbrev pub Adjoins : A → A → List A → Type ℓ
  Adjoins a b xs = (before : List A) × (after : List A) × (xs ≡ before ++ a ∷ b ∷ after)

  tail_eq : {x y : A} {xs ys : List A} → x ∷ xs ≡ y ∷ ys → (x ≡ y) × (xs ≡ ys)
  tail_eq e = ground arith

  back_nil : (xs ys : List A) → xs ++ ys ≡ [] → ys ≡ []
  back_nil [] ys e = e
  back_nil (x ∷ xs) ys e = absurd (cc)

  front_nil : (xs ys : List A) → xs ++ ys ≡ [] → xs ≡ []
  front_nil [] ys e = refl
  front_nil (x ∷ xs) ys e = absurd (cc)

  no_nil : (xs ys : List A) (a : A) → [] ≡ xs ++ a ∷ ys → ⊥
  no_nil [] ys a e = cc
  no_nil (x ∷ xs) ys a e = cc

  -- In a list of one element.
  pub Starts-only : (x a : A) → Starts a (x ∷ []) → x ≡ a
  Starts-only x a (after, e) = (tail_eq e).0

  pub Ends-only : (x a : A) → Ends a (x ∷ []) → x ≡ a
  Ends-only x a ([], e) = (tail_eq e).0
  Ends-only x a (b ∷ before, e) = absurd (no_nil before [] a (tail_eq e).1)

  pub Adjoins-only : (x a b : A) → Adjoins a b (x ∷ []) → ⊥
  Adjoins-only x a b ([], after, e) = absurd (no_nil [] after b (tail_eq e).1)
  Adjoins-only x a b (y ∷ before, after, e) = absurd (no_nil before (b ∷ after) a (tail_eq e).1)

  pub Starts-append : (xs ys : List A) (a : A) → xs ≢ [] → Starts a (xs ++ ys) → Starts a xs
  Starts-append [] ys a filled s = absurd (filled refl)
  Starts-append (x ∷ xs) ys a filled (after, e) = (xs, ap (λ y. y ∷ xs) (tail_eq e).0)

  Ends-append : (xs ys before : List A) (a : A) → ys ≢ [] → xs ++ ys ≡ before ++ a ∷ [] → Ends a ys
  Ends-append [] ys before a filled e = (before, e)
  Ends-append (x ∷ xs) ys [] a filled e = absurd (filled (back_nil xs ys (tail_eq e).1))
  Ends-append (x ∷ xs) ys (b ∷ before) a filled e = Ends-append xs ys before a filled (tail_eq e).1

  -- Two neighbours of a whole stand in one part, or at the seam.
  Adjoins-append :
      (xs ys before after : List A) (a b : A)
      → xs ++ ys ≡ before ++ a ∷ b ∷ after
      → Adjoins a b xs ⊎ ((Ends a xs × Starts b ys) ⊎ Adjoins a b ys)
  Adjoins-append [] ys before after a b e = inr (inr (before, after, e))
  Adjoins-append (x ∷ []) ys [] after a b e =
      inr (inl (([], ap (λ y. y ∷ []) (tail_eq e).0), (after, (tail_eq e).1)))
  Adjoins-append (x ∷ x' ∷ xs) ys [] after a b e =
      inl ([], xs, λ i. (tail_eq e).0 i ∷ (tail_eq (tail_eq e).1).0 i ∷ xs)
  Adjoins-append (x ∷ xs) ys (y ∷ before) after a b e =
      elim (Adjoins-append xs ys before after a b (tail_eq e).1) [
        | inl (p, q, here) ↦ inl (x ∷ p, q, ap (λ t. x ∷ t) here)
        | inr (inl ((p, last), next)) ↦ inr (inl ((x ∷ p, ap (λ t. x ∷ t) last), next))
        | inr (inr there) ↦ inr (inr there)
      ]

  later :
      {n : ℕ} {f : ℕ → List A} → ((i : ℕ) → i < suc n → f i ≢ []) → (i : ℕ) → i < n → f (suc i) ≢ []
  later h i k = h (suc i) (omega arith)

  pub join-filled : (n : ℕ) (f : ℕ → List A) → ((i : ℕ) → i < n → f i ≢ []) → 0 < n → join n f ≢ []
  join-filled zero f h k e = absurd (omega arith)
  join-filled (suc n) f h k e = h 0 (omega arith) (front_nil (f 0) (join n λ i. f (suc i)) e)

  pub Starts-join :
      (n : ℕ) (f : ℕ → List A) (a : A)
      → ((i : ℕ) → i < n → f i ≢ [])
      → Starts a (join n f)
      → (0 < n) × Starts a (f 0)
  Starts-join zero f a h (after, e) = absurd (cc)
  Starts-join (suc n) f a h s =
      (omega arith, Starts-append (f 0) (join n λ i. f (suc i)) a (h 0 (omega arith)) s)

  pub Ends-join :
      (n : ℕ) (f : ℕ → List A) (a : A)
      → ((i : ℕ) → i < n → f i ≢ [])
      → Ends a (join n f)
      → (i : ℕ) × (i + 1 ≡ n) × Ends a (f i)
  Ends-join zero f a h (before, e) = absurd (no_nil before [] a e)
  Ends-join (suc zero) f a h (before, e) = (0, omega arith, (before, sym (append-nil (f 0)) ∙ e))
  Ends-join (suc (suc n)) f a h (before, e) =
      let rest = join (suc n) (λ i. f (suc i)) in
      let (i, last, found) =
        Ends-join (suc n) (λ i. f (suc i)) a (later h)
          (Ends-append (f 0) rest before a
            (join-filled (suc n) (λ i. f (suc i)) (later h) (omega arith)) e) in
      (suc i, omega (arith, last), found)

  pub Adjoins-join :
      (n : ℕ) (f : ℕ → List A) (a b : A)
      → ((i : ℕ) → i < n → f i ≢ [])
      → Adjoins a b (join n f)
      → (i : ℕ) × ((i < n) × Adjoins a b (f i) ⊎ (suc i < n) × Ends a (f i) × Starts b (f (suc i)))
  Adjoins-join zero f a b h (before, after, e) = absurd (no_nil before (b ∷ after) a e)
  Adjoins-join (suc n) f a b h (before, after, e) =
      elim (Adjoins-append (f 0) (join n λ i. f (suc i)) before after a b e) [
        | inl here ↦ (0, inl (omega arith, here))
        | inr (inl (last, next)) ↦
            let (some_left, first) = Starts-join n (λ i. f (suc i)) b (later h) next in
            (0, inr (omega (arith, some_left), last, first))
        | inr (inr there) ↦
            let (i, place) = Adjoins-join n (λ i. f (suc i)) a b (later h) there in
            elim place [
              | inl (k, inside) ↦ (suc i, inl (omega (arith, k), inside))
              | inr (k, last, first) ↦ (suc i, inr (omega (arith, k), last, first))
            ]
      ]

-- Where an element that every one of a list is below or above stands beside them: before the first,
-- behind the last, or between two that are next to each other.
module _ {ℓ μ} {A : Type ℓ} (Below Above : A → Type μ) where
  pub data Slot (xs : List A) : Type (ℓ ⊔ μ) where
    at_front : (a : A) → Starts a xs → Above a → Slot xs
    at_back : (a : A) → Ends a xs → Below a → Slot xs
    within : (a b : A) → Adjoins a b xs → Below a → Above b → Slot xs

  behind : (x y : A) (xs : List A) → Below x → Slot (y ∷ xs) → Slot (x ∷ y ∷ xs)
  behind x y xs low (at_front a (after, e) high) =
      within x y ([], xs, refl) low (subst Above (sym (tail_eq e).0) high)
  behind x y xs low (at_back a (before, e) low') = at_back a (x ∷ before, ap (λ t. x ∷ t) e) low'
  behind x y xs low (within a b (before, after, e) low' high) =
      within a b (x ∷ before, after, ap (λ t. x ∷ t) e) low' high

  pub slot : (xs : List A) → xs ≢ [] → All (λ a. Below a ⊎ Above a) xs → Slot xs
  slot [] filled sides = absurd (filled refl)
  slot (x ∷ []) filled (inl low, sides) = at_back x ([], refl) low
  slot (x ∷ []) filled (inr high, sides) = at_front x ([], refl) high
  slot (x ∷ y ∷ xs) filled (inl low, sides) = behind x y xs low (slot (y ∷ xs) (λ e. cc) sides)
  slot (x ∷ y ∷ xs) filled (inr high, sides) = at_front x (y ∷ xs, refl) high

-- ===== src/Prelude/Numbered.antt =====
-- Lists that are numbered from 0, put together.
use Prim.Native.Nat.{ℕ, zero, suc, ◌+◌, ◌-◌, ◌*◌, ◌<◌}
use mathlib.Core.Path.{◌≡◌, refl, sym, ap, ◌∙◌}
use mathlib.Core.List.{◌∷◌, List, [], ◌++◌, append_assoc, Memᴰ}
use mathlib.Core.Logic.{◌⊎◌, inl, inr}
use native.Mathlib.Omega.{arith}
use ics.Prelude.Lists.{length, length-append, take, drop, take-append_left, drop-append_left}

module _ {ℓ} {A : Type ℓ} where
  -- The first `n` of them, one after the other.
  abbrev pub join : ℕ → (ℕ → List A) → List A
  join zero f = []
  join (suc n) f = f 0 ++ join n (λ i. f (suc i))

  -- Those from `k` on.
  abbrev pub from : ℕ → (ℕ → List A) → ℕ → List A
  from zero f = f
  from (suc k) f = from k (λ i. f (suc i))

  pub from_first : (k : ℕ) (f : ℕ → List A) → from k f 0 ≡ f k
  from_first zero f = refl
  from_first (suc k) f = from_first k (λ i. f (suc i))

  -- What stands before number `b`, number `b`, and what stands after it.
  pub join_split :
      (n b r : ℕ) (f : ℕ → List A)
      → n ≡ b + 1 + r
      → join n f ≡ join b f ++ (f b ++ join r (from (suc b) f))
  join_split zero b r f h = absurd (omega arith)
  join_split (suc n) zero r f h = ap (λ m. f 0 ++ join m (λ i. f (suc i))) (omega arith)
  join_split (suc n) (suc b) r f h =
      ap (λ t. f 0 ++ t) (join_split n b r (λ i. f (suc i)) (omega arith))
      ∙ sym (append_assoc (f 0) (join b λ i. f (suc i)) _)

  pub length-join :
      (n size : ℕ) (f : ℕ → List A)
      → ((i : ℕ) → i < n → length (f i) ≡ size)
      → length (join n f) ≡ n * size
  length-join zero size f h = omega arith
  length-join (suc n) size f h = omega (
    arith,
    length-append (f 0) (join n λ i. f (suc i)),
    h 0 (omega arith),
    length-join n size (λ i. f (suc i)) (λ i k. h (suc i) (omega arith)),
  )

  -- Number `j` of lists of one length stands where that length puts it.
  pub join_at :
      (n size j : ℕ) (front : List A) (f : ℕ → List A)
      → ((i : ℕ) → i < n → length (f i) ≡ size)
      → j < n
      → take size (drop (length front + j * size) (front ++ join n f)) ≡ f j
  join_at n size j front f h k =
      let rest = join (n - 1 - j) (from (suc j) f) in
      let whole : front ++ join n f ≡ (front ++ join j f) ++ (f j ++ rest) =
        ap (λ t. front ++ t) (join_split n j (n - 1 - j) f (omega arith))
        ∙ sym (append_assoc front (join j f) (f j ++ rest)) in
      let place : length front + j * size ≡ length (front ++ join j f) =
        omega (
          arith,
          length-append front (join j f),
          length-join j size f (λ i l. h i (omega arith)),
        ) in
      ap (λ t. take size (drop (length front + j * size) t)) whole
      ∙ ap (λ m. take size (drop m ((front ++ join j f) ++ (f j ++ rest)))) place
      ∙ ap (take size) (drop-append_left (front ++ join j f) (f j ++ rest))
      ∙ ap (λ m. take m (f j ++ rest)) (sym (h j k))
      ∙ take-append_left (f j) rest

  pub join_nil : (n : ℕ) (f : ℕ → List A) → ((i : ℕ) → i < n → f i ≡ []) → join n f ≡ []
  join_nil zero f h = refl
  join_nil (suc n) f h =
      rw (h 0 (omega arith)) (join_nil n (λ i. f (suc i)) (λ i k. h (suc i) (omega arith)))

  pub from-at : (k i : ℕ) (f : ℕ → List A) → from k f i ≡ f (k + i)
  from-at zero i f = ap f (omega arith)
  from-at (suc k) i f = from-at k i (λ j. f (suc j)) ∙ ap f (omega arith)

  pub Memᴰ-append : (xs ys : List A) {a : A} → Memᴰ a (xs ++ ys) → Memᴰ a xs ⊎ Memᴰ a ys
  Memᴰ-append [] ys m = inr m
  Memᴰ-append (x ∷ xs) ys (Memᴰ.head e) = inl (Memᴰ.head e)
  Memᴰ-append (x ∷ xs) ys (Memᴰ.tail m) = elim (Memᴰ-append xs ys m) [
    | inl here ↦ inl (Memᴰ.tail here)
    | inr there ↦ inr there
  ]

  pub Memᴰ-middle : (xs : List A) (a : A) (ys : List A) → Memᴰ a (xs ++ a ∷ ys)
  Memᴰ-middle [] a ys = Memᴰ.head refl
  Memᴰ-middle (x ∷ xs) a ys = Memᴰ.tail (Memᴰ-middle xs a ys)

  -- An element of the whole is one of a part.
  pub Memᴰ-join :
      (n : ℕ) (f : ℕ → List A) {a : A} → Memᴰ a (join n f) → (i : ℕ) × (i < n) × Memᴰ a (f i)
  Memᴰ-join zero f m = elim m [ ]
  Memᴰ-join (suc n) f m = elim (Memᴰ-append (f 0) (join n λ i. f (suc i)) m) [
    | inl here ↦ (0, omega arith, here)
    | inr there ↦
        let (i, h, found) = Memᴰ-join n (λ i. f (suc i)) there in (suc i, omega arith, found)
  ]

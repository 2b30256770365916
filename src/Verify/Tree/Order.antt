-- ===== src/Verify/Tree/Order.antt =====
-- Sorted pairs with a key between two of them that stand next to each other, after the last or before
-- the first: no pair has the key.
use ics.Prelude.{
  ◌≡◌, ◌≢◌, true, List, [], ◌∷◌, ◌++◌, All, All-append, All-imp, All-of_append, subst, sym,
}
use ics.Prelude.Bytes.{Bytes, bytes_lt, bytes_lt_irrefl, bytes_lt_trans}
use ics.Proto.Types.{ProofSpec}
use ics.Proto.Prost.{Prost}
use ics.Host.{HostFunctionsProvider}
use ics.Verify.NonExistence.{key_for_comparison}
use ics.Verify.Tree.{IsSorted}

module _ ⦃prost : Prost⦄ ⦃host : HostFunctionsProvider⦄ (spec : ProofSpec) where
  -- The order of comparison.
  abbrev pub IsBefore : Bytes → Bytes → Type 0
  IsBefore a b = bytes_lt (key_for_comparison spec a) (key_for_comparison spec b) ≡ true

  IsBefore-ne : (a b : Bytes) → IsBefore a b → a ≢ b
  IsBefore-ne a b less same =
      cc (bytes_lt_irrefl (key_for_comparison spec b), subst (λ k. IsBefore k b) same less)

  IsBefore-trans : (a b c : Bytes) → IsBefore a b → IsBefore b c → IsBefore a c
  IsBefore-trans a b c =
      bytes_lt_trans (key_for_comparison spec a) (key_for_comparison spec b)
        (key_for_comparison spec c)

  -- No pair has the key.
  abbrev pub Lacks : Bytes → List (Bytes × Bytes) → Type 0
  Lacks key pairs = All (λ entry. entry.0 ≢ key) pairs

  IsSorted-split :
      (before : List (Bytes × Bytes)) (entry : Bytes × Bytes) (after : List (Bytes × Bytes))
      → IsSorted spec (before ++ entry ∷ after)
      → All (λ other. IsBefore other.0 entry.0) before × IsSorted spec (entry ∷ after)
  IsSorted-split [] entry after sorted = (tt, sorted)
  IsSorted-split (first ∷ before) entry after (h, sorted) =
      let (lower, rest) = IsSorted-split before entry after sorted in
      let (_, (here, _)) =
        All-of_append (λ other. IsBefore first.0 other.0) before (entry ∷ after) h in
      ((here, lower), rest)

  Lacks-below :
      (before : List (Bytes × Bytes)) (entry : Bytes × Bytes) (key : Bytes)
      → All (λ other. IsBefore other.0 entry.0) before
      → IsBefore entry.0 key
      → Lacks key before
  Lacks-below before entry key lower less =
      All-imp _ (λ other h. IsBefore-ne other.0 key (IsBefore-trans other.0 entry.0 key h less))
        before lower

  pub Lacks-above :
      (entry : Bytes × Bytes) (after : List (Bytes × Bytes)) (key : Bytes)
      → IsSorted spec (entry ∷ after)
      → IsBefore key entry.0
      → Lacks key (entry ∷ after)
  Lacks-above entry after key (higher, _) less = (
    (λ same. IsBefore-ne key entry.0 less (sym same)),
    All-imp _
        (λ other h same.
          IsBefore-ne key other.0 (IsBefore-trans key entry.0 other.0 less h) (sym same))
        after higher,
  )

  pub Lacks-after_last :
      (before : List (Bytes × Bytes)) (entry : Bytes × Bytes) (key : Bytes)
      → IsSorted spec (before ++ entry ∷ [])
      → IsBefore entry.0 key
      → Lacks key (before ++ entry ∷ [])
  Lacks-after_last before entry key sorted less =
      let (lower, _) = IsSorted-split before entry [] sorted in
      All-append (λ e. e.0 ≢ key) before (entry ∷ []) (Lacks-below before entry key lower less)
        (IsBefore-ne entry.0 key less, tt)

  pub Lacks-between :
      (before : List (Bytes × Bytes)) (left right : Bytes × Bytes) (after : List (Bytes × Bytes))
      (key : Bytes)
      → IsSorted spec (before ++ left ∷ right ∷ after)
      → IsBefore left.0 key
      → IsBefore key right.0
      → Lacks key (before ++ left ∷ right ∷ after)
  Lacks-between before left right after key sorted less more =
      let (lower, (_, upper)) = IsSorted-split before left (right ∷ after) sorted in
      All-append (λ e. e.0 ≢ key) before (left ∷ right ∷ after)
        (Lacks-below before left key lower less)
        (IsBefore-ne left.0 key less, Lacks-above right after key upper more)

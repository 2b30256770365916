-- ===== src/Membership/Selection.antt =====
-- Which existence proof of a batch `get_exist_proof` of rust/src/api.rs selects.
use ics.Prelude.{
  ◌≡◌, refl, sym, ap, ◌∙◌, ◌↔◌, ◌⊎◌, inl, inr, Option, none, some, List, [], ◌∷◌, arith, subst,
  Bool-cases,
}
use ics.Prelude.Bytes.{Bytes, bytes_eq, bytes_eq_iff}
use ics.Proto.Types.{
  ExistenceProof, CommitmentProof, CommitmentOneof, BatchProof, BatchEntry, BatchOneof,
}
use ics.Membership.{exist_or, find_exist, exist_of, get_exist_proof}

-- The first entry of which `Selects` holds, with what it selects there.
pub data First {X : Type 0} (Selects : Option BatchOneof → X → Type 0)
    : List BatchEntry → X → Type 0 where
  here :
      {x : X} {entry : BatchEntry} {entries : List BatchEntry}
      → Selects entry.proof x
      → First Selects (entry ∷ entries) x
  there :
      {x : X} {entry : BatchEntry} {entries : List BatchEntry}
      → ((other : X) → ¬ Selects entry.proof other)
      → First Selects entries x
      → First Selects (entry ∷ entries) x

-- A loop over the entries each of whose rounds selects there or goes on returns what is selected first.
module _ {X : Type 0} (Selects : Option BatchOneof → X → Type 0)
    (pick : Option BatchOneof → Option X → Option X)
    (pick-cases : (o : Option BatchOneof) (rest : Option X) (x : X)
      → (pick o rest ≡ some x)
        ↔ (Selects o x ⊎ ((rest ≡ some x) × ((other : X) → ¬ Selects o other))))
    (find : List BatchEntry → Option X) (find-nil : find [] ≡ none)
    (find-cons : (entry : BatchEntry) (entries : List BatchEntry)
      → find (entry ∷ entries) ≡ pick entry.proof (find entries)) where
  pub find_iff :
      (entries : List BatchEntry) (x : X) → (find entries ≡ some x) ↔ First Selects entries x
  find_iff [] x = (λ e. absurd (cc (e, find-nil)), λ f. elim f [ ])
  find_iff (entry ∷ entries) x =
      let iff = pick-cases entry.proof (find entries) x in
      let ih = find_iff entries x in
      (
        λ e. elim (iff.0 (sym (find-cons entry entries) ∙ e)) [
          | inl h ↦ here h
          | inr (r, others) ↦ there others (ih.0 r)
        ],
        λ f.
            find-cons entry entries
            ∙ elim f [ here h ↦ iff.1 (inl h) | there others r ↦ iff.1 (inr (ih.1 r, others)) ],
      )

-- The entry is an existence proof for the key.
abbrev pub IsExistFor : Bytes → Option BatchOneof → ExistenceProof → Type 0
IsExistFor key o ex = (o ≡ some (BatchOneof.exist ex)) × (ex.key ≡ key)

exist_or-cases :
    (key : Bytes) (o : Option BatchOneof) (rest : Option ExistenceProof) (ex : ExistenceProof)
    → (exist_or key o rest ≡ some ex) ↔ (
        IsExistFor key o ex
        ⊎ ((rest ≡ some ex) × ((other : ExistenceProof) → ¬ IsExistFor key o other)))
exist_or-cases key none rest ex = (λ e. inr (e, λ other p. absurd (cc)), λ h. ground arith)
exist_or-cases key (some (BatchOneof.nonexist non)) rest ex =
    (λ e. inr (e, λ other p. absurd (cc)), λ h. ground arith)
exist_or-cases key (some (BatchOneof.exist one)) rest ex =
    elim (Bool-cases (bytes_eq one.key key)) [
      | inl same ↦ rw same (
        λ e.
            let is_one : one ≡ ex = cc in
            inl (
              ap (λ x. some (BatchOneof.exist x)) is_one,
              sym (ap (λ x. x.key) is_one) ∙ (bytes_eq_iff one.key key).0 same,
            ),
        λ h. elim h [
          | inl (p, k) ↦ cc
          | inr (_, others) ↦ absurd (others one (refl, (bytes_eq_iff one.key key).0 same))
        ],
      )
      | inr differ ↦ rw differ (
        λ e. inr (
          e,
          λ other (p, k).
              let is_one : one ≡ other = cc in
              cc (differ, (bytes_eq_iff one.key key).1 (ap (λ x. x.key) is_one ∙ k)),
        ),
        λ h. elim h [
          | inl (p, k) ↦
              let is_one : one ≡ ex = cc in
              absurd (cc (differ, (bytes_eq_iff one.key key).1 (ap (λ x. x.key) is_one ∙ k)))
          | inr (r, _) ↦ r
        ],
      )
    ]

find_exist_iff :
    (key : Bytes) (entries : List BatchEntry) (ex : ExistenceProof)
    → (find_exist key entries ≡ some ex) ↔ First (IsExistFor key) entries ex
unfolding find_exist
find_exist_iff key =
    find_iff (IsExistFor key) (exist_or key) (exist_or-cases key) (find_exist key) refl
      (λ entry entries. refl)

-- The existence proof for a key that a commitment proof offers. One that stands alone is offered for
-- every key.
pub data OffersExist (key : Bytes) : Option CommitmentOneof → ExistenceProof → Type 0 where
  alone : {ex : ExistenceProof} → OffersExist key (some (CommitmentOneof.exist ex)) ex
  in_batch :
      {batch : BatchProof} {ex : ExistenceProof}
      → First (IsExistFor key) batch.entries ex
      → OffersExist key (some (CommitmentOneof.batch batch)) ex

offered :
    {key : Bytes} {one ex : ExistenceProof}
    → OffersExist key (some (CommitmentOneof.exist one)) ex
    → one ≡ ex
offered alone = refl

exist_of_iff :
    (key : Bytes) (o : Option CommitmentOneof) (ex : ExistenceProof)
    → (exist_of key o ≡ some ex) ↔ OffersExist key o ex
exist_of_iff key none ex = (λ e. absurd (cc), λ f. elim f [ ])
exist_of_iff key (some (CommitmentOneof.nonexist non)) ex = (λ e. absurd (cc), λ f. elim f [ ])
exist_of_iff key (some (CommitmentOneof.compressed c)) ex = (λ e. absurd (cc), λ f. elim f [ ])
exist_of_iff key (some (CommitmentOneof.exist one)) ex = (
  λ e.
      let is_one : one ≡ ex = cc in
      subst (OffersExist key (some (CommitmentOneof.exist one))) is_one alone,
  λ f. ap some (offered f),
)
exist_of_iff key (some (CommitmentOneof.batch batch)) ex = (
  λ e. in_batch ((find_exist_iff key batch.entries ex).0 e),
  λ f. elim f [ in_batch first ↦ (find_exist_iff key batch.entries ex).1 first ],
)

-- `get_exist_proof` returns exactly the proof that stands alone, whatever its key, or the first
-- existence proof of a batch that is for the key.
pub get_exist_proof_iff :
    (proof : CommitmentProof) (key : Bytes) (ex : ExistenceProof)
    → (get_exist_proof proof key ≡ some ex) ↔ OffersExist key proof.proof ex
unfolding get_exist_proof
get_exist_proof_iff proof key ex = exist_of_iff key proof.proof ex

-- ===== src/Account/Rows.antt =====
-- What internal/account/dao.go selects for the scheduler are rows of the table.
use gpt2api.Prelude.{ℕ, ◌≡◌, refl, true, [], ◌∷◌, take, Bool-cases, ◌⊎◌, inl, inr}
use gpt2api.Prelude.Sort.{All, All-take, sort_by, sort_by-All}
use gpt2api.Db.Table.{Table}
use gpt2api.Account.{
  Account, fill, is_dispatchable, comes_first, selected, fill_all, list_dispatchable,
}

-- The row is in the table.
abbrev pub Has : {A : Type 0} → ℕ × A → Table A → Type 0
Has r [] = ⊥
Has r (x ∷ t) = (x ≡ r) ⊎ Has r t

rows-All :
    {A : Type 0} (all t : Table A) → ((r : ℕ × A) → Has r t → Has r all) → All (λ r. Has r all) t
rows-All all [] h = tt
rows-All all (x ∷ t) h = (h x (inl refl), rows-All all t (λ r m. h r (inr m)))

selected-All :
    (P : ℕ × Account → Type 0) (now : ℕ) (t : Table Account)
    → All P t
    → All (λ r. P r × (is_dispatchable now r.1 ≡ true)) (selected now t)
unfolding selected
selected-All P now [] h = tt
selected-All P now ((i, a) ∷ t) h = elim (Bool-cases (is_dispatchable now a)) [
  | inl e ↦ rw e ((h.0, e), selected-All P now t h.1)
  | inr e ↦ rw e (selected-All P now t h.1)
]

-- A candidate is a dispatchable row of the table, with the uses of another day left out.
pub record Candidate (now today : ℕ) (all : Table Account) (r : ℕ × Account) : Type 0 where
  pub row : Account
  pub in_table : Has (r.0, row) all
  pub dispatchable : is_dispatchable now row ≡ true
  pub filled : r.1 ≡ fill today row

fill_all-All :
    (now today : ℕ) (all t : Table Account)
    → All (λ r. Has r all × (is_dispatchable now r.1 ≡ true)) t
    → All (Candidate now today all) (fill_all today t)
unfolding fill_all
fill_all-All now today all [] h = tt
fill_all-All now today all ((i, a) ∷ t) h = (
  record { row = a; in_table = (h.0).0; dispatchable = (h.0).1; filled = refl },
  fill_all-All now today all t h.1,
)

pub list_dispatchable-All :
    (now today limit : ℕ) (t : Table Account)
    → All (Candidate now today t) (list_dispatchable now today limit t)
list_dispatchable-All now today limit t =
    fill_all-All now today t (take limit (sort_by comes_first (selected now t))) (
      All-take Good limit (sort_by comes_first (selected now t)) (
        sort_by-All comes_first Good (selected now t)
          (selected-All (λ r. Has r t) now t (rows-All t t (λ r m. m)))))
  where
    Good : ℕ × Account → Type 0
    Good r = Has r t × (is_dispatchable now r.1 ≡ true)

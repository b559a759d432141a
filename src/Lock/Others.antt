-- ===== src/Lock/Others.antt =====
-- A command of pkg/lock/redis_lock.go leaves the entries of other keys.
use gpt2api.Prelude.{
  ℕ, ◌≡◌, refl, String, Bool, true, false, none, str_eq, Bool-cases, Option-cases, inl, inr, [],
  ◌∷◌,
}
use gpt2api.Lock.{Store, look_up, delete, expiry, acquire, is_held_by, release}
use gpt2api.Lock.Holding.{entry, entry-put_other, entry-delete_other}

module _ (k key : String) (ne : str_eq k key ≡ false) where
  pub acquire-other :
      (fails : Bool) (now : ℕ) (token : String) (ttl : ℕ) (s : Store)
      → entry k (acquire fails now key token ttl s).1 ≡ entry k s
  unfolding acquire
  acquire-other true now token ttl s = refl
  acquire-other false now token ttl s = elim (Option-cases (look_up now key s)) [
    | inl free ↦
        rw free (entry-put_other k key (record { token = token; until = expiry now ttl }) s ne)
    | inr (other, taken) ↦ rw taken refl
  ]

  pub release-other :
      (fails : Bool) (now : ℕ) (token : String) (s : Store)
      → entry k (release fails now key token s).1 ≡ entry k s
  unfolding release
  release-other true now token s = refl
  release-other false now token s = elim (Bool-cases (is_held_by now key token s)) [
    | inl held ↦ rw held (entry-delete_other k key s ne)
    | inr free ↦ rw free refl
  ]

look_up-delete : (now : ℕ) (k : String) (s : Store) → look_up now k (delete k s) ≡ none
unfolding look_up delete
look_up-delete now k [] = refl
look_up-delete now k ((j, x) ∷ t) = elim (Bool-cases (str_eq k j)) [
  | inl e ↦ rw e (look_up-delete now k t)
  | inr e ↦ rw e (rw e (look_up-delete now k t))
]

deleted_free :
    (now : ℕ) (k token : String) (s : Store) → is_held_by now k token (delete k s) ≡ false
unfolding is_held_by
deleted_free now k token s = rw (look_up-delete now k s, is_held_by) refl

-- A release that reaches the store leaves no lock under its key and token.
pub release_frees :
    (now : ℕ) (k token : String) (s : Store)
    → is_held_by now k token (release false now k token s).1 ≡ false
unfolding release
release_frees now k token s = elim (Bool-cases (is_held_by now k token s)) [
  | inl held ↦ rw held (deleted_free now k token s)
  | inr free ↦ rw free free
]

-- ===== src/Channel/Counted.antt =====
-- The failure count and the health of a channel of internal/channel, and what keeps them in step.
use gpt2api.Prelude.{
  ℕ, ◌≤◌, ◌≡◌, refl, Bool, true, false, Option, none, some, [], ◌∷◌, arith, ◌==◌, Bool-cases, inl,
  inr,
}
use gpt2api.Prelude.Sort.{All}
use gpt2api.Db.Table.{Table, find, replace}
use gpt2api.Db.Action.{Error, Result, ok, err}
use gpt2api.Db.Call.{Server, Call, raise_if, ◌>>=◌, ◌>>◌, statement, Gives, statement-Gives}
use gpt2api.Channel.{Channel, Channels, unhealthy, found, rewrite_row, rewrite}

-- Unhealthy from the third failure in a row on, and only then.
pub record IsCounted (c : Channel) : Type 0 where
  pub failed : c.status ≡ unhealthy → 3 ≤ c.fail_count
  pub marked : 3 ≤ c.fail_count → c.status ≡ unhealthy

abbrev pub AllCounted : Channels → Type 0
AllCounted d = All (λ (r : ℕ × Channel). IsCounted r.1) d.channels

pub replace-All :
    (P : Channel → Type 0) (id : ℕ) (c : Channel) (t : Table Channel)
    → P c
    → All (λ (r : ℕ × Channel). P r.1) t
    → All (λ (r : ℕ × Channel). P r.1) (replace id c t)
unfolding replace
replace-All P id c [] p h = tt
replace-All P id c ((j, x) ∷ t) p h = elim (Bool-cases (id == j)) [
  | inl e ↦ rw e (p, h.1)
  | inr e ↦ rw e (h.0, replace-All P id c t p h.1)
]

pub find-All :
    (P : Channel → Type 0) (id : ℕ) (c : Channel) (t : Table Channel)
    → find id t ≡ some c
    → All (λ (r : ℕ × Channel). P r.1) t
    → P c
unfolding find
find-All P id c [] found h = absurd (ground arith)
find-All P id c ((j, x) ∷ t) found h = elim (Bool-cases (id == j)) [
  | inl e ↦ let same : x ≡ c = ground arith in rw (← same) h.0
  | inr e ↦ find-All P id c t (ground arith) h.1
]

-- A write that keeps the rows counted keeps the table so.
pub rewrite-AllCounted :
    (id : ℕ) (test : Channel → Bool) (write : Channel → Channel) (d : Channels)
    → ((c : Channel) → IsCounted c → IsCounted (write c))
    → AllCounted d
    → AllCounted (rewrite id test write d)
rewrite-AllCounted id test write d keeps h = onto (find id d.channels) refl
  where
    onto :
        (o : Option Channel) → find id d.channels ≡ o → AllCounted (rewrite_row id test write d o)
    onto none e = h
    onto (some c) e = elim (Bool-cases (test c)) [
      | inr f ↦ rw f h
      | inl f ↦ rw f (
          replace-All IsCounted id (write c) d.channels
            (keeps c (find-All IsCounted id c d.channels e h)) h)
    ]

-- The end of a call, whatever it returns.
unfoldable pub Keeps : {A : Type 0} → Result A × Server Channels → Type 0
Keeps r = AllCounted (r.1).state

pub statement-Keeps :
    {A : Type 0} (q : Channels → Result (A × Channels)) (s : Server Channels)
    → AllCounted s.state
    → ((a : A) (d' : Channels) → q s.state ≡ ok (a, d') → AllCounted d')
    → Keeps (statement q s)
unfolding Keeps
statement-Keeps {A} q s h f =
    go (statement q s) (statement-Gives q (λ _ d'. AllCounted d') s.state s refl f)
  where
    go : (r : Result A × Server Channels) → Gives s.state (λ _ d'. AllCounted d') r → Keeps r
    go (ok a, t) g = g
    go (err e, t) g = rw g h

pub bind-Keeps :
    {A B : Type 0} (m : Call Channels B) (f : B → Call Channels A) (s : Server Channels)
    → Keeps (m s)
    → ((b : B) (t : Server Channels) → AllCounted t.state → Keeps (f b t))
    → Keeps ((m >>= f) s)
unfolding Keeps
bind-Keeps {A} {B} m f s first next = go (m s) first
  where
    go :
        (r : Result B × Server Channels)
        → Keeps r
        → Keeps (elim r.0 as (λ _. Result A × Server Channels) [
          | ok b ↦ f b r.1
          | err e ↦ (err e, r.1)
        ])
    go (ok b, t) h = next b t h
    go (err e, t) h = h

pub raise_if-Keeps :
    {A : Type 0} (b : Bool) (e : Error) (next : Call Channels A) (s : Server Channels)
    → AllCounted s.state
    → Keeps (next s)
    → Keeps ((raise_if b e >> next) s)
unfolding Keeps
raise_if-Keeps true e next s h k = h
raise_if-Keeps false e next s h k = k

pub rewriting-Keeps :
    (id : ℕ) (test : Channel → Bool) (write : Channel → Channel) (s : Server Channels)
    → ((c : Channel) → IsCounted c → IsCounted (write c))
    → AllCounted s.state
    → Keeps (statement (λ d. ok (tt, rewrite id test write d)) s)
rewriting-Keeps id test write s keeps h =
    statement-Keeps (λ d. ok (tt, rewrite id test write d)) s h
      λ _ d' e. rw (← new d' e) (rewrite-AllCounted id test write s.state keeps h)
  where
    new :
        (d' : Channels)
        → ◌≡◌ {A = Result (Unit {0} × Channels)}
            (ok (tt, rewrite id test write s.state))
            (ok (tt, d'))
        → rewrite id test write s.state ≡ d'
    new d' e = cc e

-- ===== src/Recharge/Settle.antt =====
-- A payment of internal/recharge: the order is marked first and credited afterwards.
use gpt2api.Prelude.{ℕ, ◌+◌, ◌≡◌, refl, true, false, some, arith, ◌==◌, Bool-cases, inl, inr, ◌⊎◌}
use gpt2api.Prelude.Int.{pos, ◌+ℤ◌, leb_ℤ, int_laws}
use gpt2api.Db.Table.{find, replace}
use gpt2api.Db.Keys.{replace-IsKeyed}
use gpt2api.Db.Rows.{Database, Order}
use gpt2api.Db.Action.{
  Result, ok, err, Session, Action, Ensures, statement-Ensures, Ensures-bind, ◌>>=◌,
}
use gpt2api.Billing.Account.{ledger}
use gpt2api.Billing.Logged.{Logged}
use gpt2api.Recharge.{is_pending, total_credits, update_pending}
use gpt2api.Recharge.Owed.{due, share, owed, owed-replace}
use gpt2api.Recharge.Steps.{Keyed, Advances, Follows, Follows-refl, replace-Advances}

-- A write that ends the waiting of an order and keeps its buyer and amounts.
pub record Ending (write : Order → Order) : Type 0 where
  pub ended : (o : Order) → is_pending (write o).status ≡ false
  pub same_user : (o : Order) → (write o).user_id ≡ o.user_id
  pub same_price : (o : Order) → (write o).price_cny ≡ o.price_cny
  pub same_credits : (o : Order) → (write o).credits ≡ o.credits
  pub same_bonus : (o : Order) → (write o).bonus ≡ o.bonus

module _ (write : Order → Order) (w : Ending write) (id : ℕ) (o : Order) (d : Database)
    (keyed : Keyed d) (found : find id d.orders ≡ some o) where
  unfoldable pub marked : Database
  marked = record d { orders = replace id (write o) d.orders }

  write-Advances : is_pending o.status ≡ true → Advances o (write o)
  write-Advances waits = record {
    same_user = w.same_user o;
    same_price = w.same_price o;
    same_credits = w.same_credits o;
    same_bonus = w.same_bonus o;
    is_final = λ h. ground arith;
  }

  marked-owed :
      is_pending o.status ≡ true → (k : ℕ) → owed k marked.orders + share k o ≡ owed k d.orders
  unfolding marked
  marked-owed waits k = owed-replace k id o (write o) d.orders found waits (w.ended o)

  marked-ledger : (k : ℕ) → ledger k marked ≡ ledger k d
  unfolding marked ledger
  marked-ledger k = refl

  marked-orders :
      is_pending o.status ≡ true
      → (j : ℕ) (x : Order) → find j d.orders ≡ some x
      → (y : Order) × (find j marked.orders ≡ some y) × Advances x y
  unfolding marked
  marked-orders waits = replace-Advances id o (write o) d.orders found (write-Advances waits)

  marked-Keyed : Keyed marked
  unfolding marked
  marked-Keyed = replace-IsKeyed id (write o) d.next_order d.orders keyed

  -- The order alone was marked.
  pub marked-Follows : is_pending o.status ≡ true → Follows d marked
  marked-Follows waits = record {
    keyed = marked-Keyed;
    orders = marked-orders waits;
    fair = λ k. rw (marked-ledger k) (omega (int_laws, marked-owed waits k));
  }

  due_exact : leb_ℤ (total_credits o) (pos 0) ≡ false → total_credits o ≡ pos (due o)
  unfolding due
  due_exact positive = ground arith

  -- The order was marked, and then its credits were logged.
  pub credited-Follows :
      is_pending o.status ≡ true
      → (d' : Database) → Logged o.user_id (total_credits o) marked d'
      → Follows d d'
  credited-Follows waits d' l = record {
    keyed = rw (l.same_next, l.same_orders) marked-Keyed;
    orders = λ j x at. rw l.same_orders (marked-orders waits j x at);
    fair = λ k. elim (Bool-cases (k == o.user_id)) [
      | inl e ↦
          let who : k ≡ o.user_id = ground arith in
          let part : share k o ≡ due o = ground arith in
          let now : ledger k d' ≡ ledger k d +ℤ pos (due o) =
            rw (who, l.now, marked-ledger o.user_id, due_exact l.positive) refl in
          rw (now, l.same_orders) (omega (int_laws, marked-owed waits k, part))
      | inr ne ↦
          rw (l.others k ne, marked-ledger k, l.same_orders) (omega (int_laws, marked-owed waits k))
    ];
  }

  -- What the conditional update does to the row that is there.
  abbrev pub Marks : ℕ → Database → Type 0
  Marks n d' =
      ((n ≡ 0) × (is_pending o.status ≡ false) × (d' ≡ d))
      ⊎ ((n ≡ 1) × (is_pending o.status ≡ true) × (d' ≡ marked))

  pub update_pending-Marks :
      (t : Session) → t.db ≡ d → Ensures t.db Marks (update_pending id write t)
  unfolding update_pending marked
  update_pending-Marks t at = statement-Ensures _ Marks t λ n d' e.
      elim (Bool-cases (is_pending o.status)) [
        | inl waits ↦ inr (ground arith, waits, ground arith)
        | inr ended ↦ inl (ground arith, ended, ground arith)
      ]

  credited-end :
      is_pending o.status ≡ true
      → (r : Result (Unit {0}) × Session)
      → Ensures marked (λ _ d'. Logged o.user_id (total_credits o) marked d') r
      → Follows d (r.1).db
  credited-end waits (ok x, t) l = credited-Follows waits t.db l
  credited-end waits (err e, t) same = rw same (marked-Follows waits)

  -- The update, and what comes after it: nothing where no row was affected, the credits otherwise.
  pub update-then-Follows :
      (next : ℕ → Action (Unit {0}))
      → ((t : Session) → ((next 0 t).1).db ≡ t.db)
      → ((t : Session)
          → Ensures t.db (λ _ d'. Logged o.user_id (total_credits o) t.db d') (next 1 t))
      → (t : Session) → t.db ≡ d
      → Follows d (((update_pending id write >>= next) t).1).db
  update-then-Follows next stays credits t at =
      Ensures-bind (update_pending id write) next Marks (Follows d) t (update_pending-Marks t at)
        (rw at (Follows-refl d keyed)) after
    where
      after : (n : ℕ) (t' : Session) → Marks n t'.db → Follows d ((next n t').1).db
      after n t' (inl (e, _, same)) = rw (e, stays t', same) (Follows-refl d keyed)
      after n t' (inr (e, waits, same)) =
          rw e (credited-end waits (next 1 t') (rw (← same) (credits t')))

  -- The update alone.
  pub update-Follows :
      (next : ℕ → Action (Unit {0}))
      → ((n : ℕ) (t : Session) → ((next n t).1).db ≡ t.db)
      → (t : Session) → t.db ≡ d
      → Follows d (((update_pending id write >>= next) t).1).db
  update-Follows next stays t at =
      Ensures-bind (update_pending id write) next Marks (Follows d) t (update_pending-Marks t at)
        (rw at (Follows-refl d keyed)) after
    where
      after : (n : ℕ) (t' : Session) → Marks n t'.db → Follows d ((next n t').1).db
      after n t' (inl (e, _, same)) = rw (stays n t', same) (Follows-refl d keyed)
      after n t' (inr (e, waits, same)) = rw (stays n t', same) (marked-Follows waits)

-- ===== src/Recharge/History.antt =====
-- Any sequence of calls that pay, cancel or expire the orders of internal/recharge.
use gpt2api.Prelude.{ℕ, ◌≡◌, refl, String, Option, none, some, List, [], ◌∷◌, arith, if◌then◌else◌}
use gpt2api.Prelude.Int.{ℤ, pos, pos_part, leb_ℤ, ◌+ℤ◌, ◌≤ℤ◌}
use gpt2api.Db.Table.{find}
use gpt2api.Db.Rows.{Database, Order}
use gpt2api.Db.Action.{Result, ok, err, Session, Ensures, statement-Ensures, invalid_sign}
use gpt2api.Billing.Account.{ledger}
use gpt2api.Epay.{Params, Payload}
use gpt2api.Recharge.{
  expire_pending, cancel_by_user, handle_notify, admin_force_paid, notify, Reply, reply_of,
}
use gpt2api.Recharge.Owed.{owed}
use gpt2api.Recharge.Steps.{Keyed, Advances, Follows, Follows-refl, Follows-trans}
use gpt2api.Recharge.Ways.{
  Ends, notify-Ends, cancel_by_user-Ends, admin_force_paid-Ends, all_expired-Follows, all_expired,
}

-- A callback of the gateway at a time, a cancellation by a user, the clean-up, or an administrator's
-- payment.
pub data Call : Type 0 where
  callback : ℕ → Params → Call
  cancel : ℕ → ℕ → Call
  expire : ℕ → ℤ → Call
  force : ℕ → ℕ → ℕ → Call

module _ (parse : Params → Option Payload) (encode : Params → String) (fen_of : String → Option ℤ)
    (show_id : ℕ → String) where
  pub apply : Call → Session → Session
  apply (callback now form) s = (handle_notify parse encode fen_of now form s).1
  apply (cancel user_id id) s = (cancel_by_user user_id id s).1
  apply (expire now minutes) s = (expire_pending now minutes s).1
  apply (force now id actor) s = (admin_force_paid show_id now id actor s).1

  pub run : List Call → Session → Session
  run [] s = s
  run (c ∷ cs) s = run cs (apply c s)

  reply_of-Follows :
      (d : Database) (r : Result (Unit {0}) × Session) → Ends d r → Follows d ((reply_of r).1).db
  reply_of-Follows d (ok x, t) h = h
  reply_of-Follows d (err e, t) h = h

  handle_notify-Follows :
      (now : ℕ) (form : Params) (s : Session)
      → Keyed s.db
      → Follows s.db ((handle_notify parse encode fen_of now form s).1).db
  unfolding handle_notify
  handle_notify-Follows now form s keyed = known (parse form)
    where
      known :
          (p : Option Payload)
          → Follows s.db
              ((elim p as (λ _. Reply × Session) [
                | none ↦ reply_of (err invalid_sign, s)
                | some pl ↦ reply_of (notify encode fen_of now pl s)
              ]).1
                ).db
      known none = Follows-refl s.db keyed
      known (some pl) =
          reply_of-Follows s.db (notify encode fen_of now pl s)
            (notify-Ends s.db keyed encode fen_of now pl s refl)

  expire_pending-Ends :
      (now : ℕ) (minutes : ℤ) (s : Session) → Keyed s.db → Ends s.db (expire_pending now minutes s)
  unfolding expire_pending all_expired
  expire_pending-Ends now minutes s keyed =
      let m : ℕ = if leb_ℤ minutes (pos 0) then 30 else pos_part minutes in
      onto (expire_pending now minutes s)
        (statement-Ensures _ (λ n d'. d' ≡ all_expired s.db keyed now m) s λ n d' e. ground arith)
    where
      onto :
          (r : Result ℕ × Session)
          → Ensures s.db
              (λ n d'.
                d'
                ≡ all_expired s.db keyed now
                    (if leb_ℤ minutes (pos 0) then 30 else pos_part minutes))
              r
          → Ends s.db r
      onto (ok n, t) e = rw e (all_expired-Follows s.db keyed now _)
      onto (err x, t) e = rw e (Follows-refl s.db keyed)

  apply-Follows : (c : Call) (s : Session) → Keyed s.db → Follows s.db (apply c s).db
  unfolding apply
  apply-Follows (callback now form) s keyed = handle_notify-Follows now form s keyed
  apply-Follows (cancel user_id id) s keyed = cancel_by_user-Ends s.db keyed user_id id s refl
  apply-Follows (expire now minutes) s keyed = expire_pending-Ends now minutes s keyed
  apply-Follows (force now id actor) s keyed =
      admin_force_paid-Ends s.db keyed show_id now id actor s refl

  run-Follows : (cs : List Call) (s : Session) → Keyed s.db → Follows s.db (run cs s).db
  unfolding run
  run-Follows [] s keyed = Follows-refl s.db keyed
  run-Follows (c ∷ cs) s keyed =
      let first = apply-Follows c s keyed in
      Follows-trans s.db (apply c s).db (run cs (apply c s)).db first
        (run-Follows cs (apply c s) first.keyed)

  -- Whatever is called, however often and with any failures of the driver, and where order keys are
  -- distinct: the ledger sum of a user
  -- and what the user's pending orders would still credit do not grow together.
  pub run-credits :
      (cs : List Call) (s : Session)
      → Keyed s.db
      → (k : ℕ)
      → ledger k (run cs s).db +ℤ pos (owed k (run cs s).db.orders)
        ≤ℤ ledger k s.db +ℤ pos (owed k s.db.orders)
  run-credits cs s keyed k = (run-Follows cs s keyed).fair k

  -- Whatever is called, where order keys are distinct: an order stays, with its buyer, its price and its credits, and once it is
  -- not pending no column of it changes any more.
  pub run-Advances :
      (cs : List Call) (s : Session)
      → Keyed s.db
      → (id : ℕ) (o : Order) → find id s.db.orders ≡ some o
      → (o' : Order) × (find id (run cs s).db.orders ≡ some o') × Advances o o'
  run-Advances cs s keyed id o found = (run-Follows cs s keyed).orders id o found

-- ===== src/Gateway/Charge.antt =====
-- The accounts in `ImageGenerations` and `dispatchImageToChannel` of internal/gateway: credits are
-- reserved before the images are made, and settled or refunded after it. What happens in between,
-- `Verdict`, touches no credits.
use gpt2api.Prelude.{ℕ, String, Bool, true, false, ◌==◌, if◌then◌else◌}
use gpt2api.Prelude.Int.{ℤ, pos, negsuc, ltb_ℤ}
use gpt2api.Db.Action.{Error, insufficient, Result, ok, err}
use gpt2api.Billing.{pre_deduct, settle, refund_credits}
use gpt2api.ApiKey.{touch_usage}
use gpt2api.Gateway.{Site, Usage, Reply, refused, served, Verdict, lost, won, bill, on_keys}

-- Who pays, for what and until when.
pub record Bill : Type 0 where
  pub user_id : ℕ
  pub key_id : ℕ
  pub cost : ℤ
  pub ref_id : String
  pub task_id : String
  pub now : ℕ
  pub client_ip : String

-- The status and the code after an error of `PreDeduct`.
abbrev pub unpaid : Error → ℕ × String
unpaid insufficient = (402, "insufficient_balance")
unpaid e = (500, "billing_error")

abbrev pub is_zero : ℤ → Bool
is_zero (pos n) = n == 0
is_zero (negsuc n) = false

-- The answer, with the row for the log.
abbrev pub Answer : Type 0 → Type 0
Answer V = (Reply × Usage) × Site V

module _ {V : Type 0} where
  abbrev pub refuse : ℕ → String → String → Usage → Site V → Answer V
  refuse status code shown rec w =
      ((refused status shown, record rec { is_success = false; error_code = code }), w)

  -- `PreDeduct`, where there is something to pay.
  unfoldable pub reserve : Bill → Site V → Result (Unit {0}) × Site V
  reserve b w =
      let paid = bill (pre_deduct b.user_id b.key_id b.cost b.ref_id "image prepay") w in
      if ltb_ℤ (pos 0) b.cost then paid else (ok tt, w)

  -- The function `refund`; its error is dropped.
  unfoldable pub give_back : Bill → Site V → Site V
  give_back b w =
      let refunded =
        (bill (refund_credits b.user_id b.key_id b.cost b.ref_id "image refund") w).1 in
      if is_zero b.cost then w else refunded

  -- `Settle` and `TouchUsage`, whose errors are logged or dropped.
  unfoldable pub settle_usage : Bool → Bill → ℤ → Site V → Site V
  settle_usage wanted b actual w =
      let settled = (bill (settle b.user_id b.key_id b.cost actual b.ref_id "image settle") w).1 in
      (on_keys (touch_usage b.now b.key_id b.client_ip actual) (if wanted then settled else w)).1

  -- The rest of the handler after an attempt. `wanted` says for the actual cost whether `Settle` is
  -- called at all.
  unfoldable pub finish : (ℤ → Bool) → Bill → Usage → Verdict × Site V → Answer V
  finish wanted b rec (lost account status code shown, w) =
      refuse status code shown (record rec { account_id = account }) (give_back b w)
  finish wanted b rec (won account images n actual, w) = (
    (
      served b.task_id images,
      record rec { account_id = account; is_success = true; image_count = n; credit_cost = actual },
    ),
    settle_usage (wanted actual) b actual w,
  )

  unfoldable pub after_reserve :
      (ℤ → Bool)
      → Bill
      → Usage
      → (Site V → Verdict × Site V)
      → Result (Unit {0}) × Site V
      → Answer V
  after_reserve wanted b rec attempt (err e, w) =
      refuse (unpaid e).0 (unpaid e).1 (unpaid e).1 rec w
  after_reserve wanted b rec attempt (ok _, w) = finish wanted b rec (attempt w)

  -- A request from its reservation on.
  unfoldable pub charge :
      (ℤ → Bool) → Bill → Usage → (Site V → Verdict × Site V) → Site V → Answer V
  charge wanted b rec attempt w = after_reserve wanted b rec attempt (reserve b w)

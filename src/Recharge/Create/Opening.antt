-- ===== src/Recharge/Create/Opening.antt =====
-- What `Service.Create` of internal/recharge opens when it succeeds.
use gpt2api.Prelude.{
  ℕ, ◌+◌, ◌≡◌, refl, ◌∙◌, String, Bool, true, false, Option, none, some, [], ◌∷◌, ◌&&◌, not, str_eq,
  if◌then◌else◌, arith, Bool-cases, inl, inr,
}
use gpt2api.Prelude.Int.{ℤ, pos, ◌+ℤ◌, ltb_ℤ, wrap64}
use gpt2api.Db.Table.{find, find_where}
use gpt2api.Db.Rows.{Database, Order, Package, pending}
use gpt2api.Db.Action.{
  package_unavailable, channel_disabled, recharge_disabled, amount_out_of_range, bad_pay_url,
  daily_limit_exceeded, Action, Session, OnOk, OnOk-bind, OnOk-weaken, raise_if-bind,
  statement-OnOk, pure, raise, raise_if, ◌>>=◌, ◌>>◌,
}
use gpt2api.Epay.{Params}
use gpt2api.Recharge.{has_trade_no}
use gpt2api.Recharge.Create.{
  Limits, Config, CreateInput, is_enabled, get_package, sum_paid, sum_paid_today_cny, check_limits,
  new_order, create_order, create,
}

-- The price is in the range, and with what the user paid today within the daily limit.
abbrev pub Allowed : Option Limits → ℕ → ℕ → ℤ → Database → Type 0
Allowed none today user_id price d = Unit {0}
Allowed (some l) today user_id price d =
    ((ltb_ℤ (pos 0) l.min_cny && ltb_ℤ price l.min_cny) ≡ false)
    × ((ltb_ℤ (pos 0) l.max_cny && ltb_ℤ l.max_cny price) ≡ false)
    × (ltb_ℤ (pos 0) l.daily_limit_cny ≡ true
        → ltb_ℤ l.daily_limit_cny (wrap64 (sum_paid today user_id d.orders +ℤ price)) ≡ false)

-- A new pending order for a package on sale, under a new trade number.
pub record Opened (limits : Option Limits) (trade_no : String) (today now : ℕ) (i : CreateInput)
    (d : Database) (r : ℕ × Order) (d' : Database) : Type 0 where
  pub goods : Package
  pub url : String
  pub found : find i.package_id d.packages ≡ some goods
  pub on_sale : goods.enabled ≡ true
  pub allowed : Allowed limits today i.user_id goods.price_cny d
  pub is_new : find_where (has_trade_no trade_no) d.orders ≡ none
  pub number : r.0 ≡ d.next_order
  pub order : r.1 ≡ record {
    out_trade_no = trade_no;
    user_id = i.user_id;
    package_id = i.package_id;
    price_cny = goods.price_cny;
    credits = goods.credits;
    bonus = goods.bonus;
    channel = "epay";
    pay_method = i.pay_type;
    status = pending;
    trade_no = "";
    paid_at = none;
    pay_url = url;
    client_ip = i.client_ip;
    notify_raw = none;
    remark = goods.name;
    created_at = now;
  }
  pub stored : d' ≡ record d { orders = r ∷ d.orders; next_order = d.next_order + 1 }

module _ (d : Database) where
  sum_paid-OnOk :
      (today user_id : ℕ) (t : Session)
      → t.db ≡ d
      → OnOk
          (λ n d'. (n ≡ sum_paid today user_id d.orders) × (d' ≡ d))
          (sum_paid_today_cny today user_id t)
  unfolding sum_paid_today_cny
  sum_paid-OnOk today user_id t at =
      statement-OnOk _ (λ n d'. (n ≡ sum_paid today user_id d.orders) × (d' ≡ d)) t
        λ n d' e. (ground arith, ground arith)

  -- The part of `Create` that looks at the daily limit.
  abbrev daily_check : Limits → ℕ → ℕ → ℤ → Action (Unit {0})
  daily_check l today user_id price =
      if ltb_ℤ (pos 0) l.daily_limit_cny
      then (sum_paid_today_cny today user_id >>= λ already.
          raise_if (ltb_ℤ l.daily_limit_cny (wrap64 (already +ℤ price))) daily_limit_exceeded)
      else pure tt

  abbrev Daily : Limits → ℕ → ℕ → ℤ → Unit {0} → Database → Type 0
  Daily l today user_id price _ d' =
      (ltb_ℤ (pos 0) l.daily_limit_cny ≡ true
        → ltb_ℤ l.daily_limit_cny (wrap64 (sum_paid today user_id d.orders +ℤ price)) ≡ false)
      × (d' ≡ d)

  daily_check-OnOk :
      (l : Limits) (today user_id : ℕ) (price : ℤ) (t : Session)
      → t.db ≡ d
      → OnOk (Daily l today user_id price) (daily_check l today user_id price t)
  daily_check-OnOk l today user_id price t at =
      elim (Bool-cases (ltb_ℤ (pos 0) l.daily_limit_cny)) [
        | inr e ↦ rw e (λ h. ground (arith, h), at)
        | inl e ↦ rw e (
            OnOk-bind (sum_paid_today_cny today user_id)
              (λ already.
                raise_if (ltb_ℤ l.daily_limit_cny (wrap64 (already +ℤ price))) daily_limit_exceeded)
              (λ n d'. (n ≡ sum_paid today user_id d.orders) × (d' ≡ d))
              (Daily l today user_id price) t (sum_paid-OnOk today user_id t at)
              λ n d' q t' at'. elim (Bool-cases (ltb_ℤ l.daily_limit_cny (wrap64 (n +ℤ price)))) [
                | inl over ↦ rw over tt
                | inr fine ↦ rw fine (λ _. rw (← q.0) fine, at' ∙ q.1)
              ])
      ]

  check_limits-OnOk :
      (limits : Option Limits) (today user_id : ℕ) (price : ℤ) (t : Session)
      → t.db ≡ d
      → OnOk
          (λ _ d'. Allowed limits today user_id price d × (d' ≡ d))
          (check_limits limits today user_id price t)
  unfolding check_limits
  check_limits-OnOk none today user_id price t at = (tt, at)
  check_limits-OnOk (some l) today user_id price t at =
      raise_if-bind (ltb_ℤ (pos 0) l.min_cny && ltb_ℤ price l.min_cny) amount_out_of_range
        (raise_if (ltb_ℤ (pos 0) l.max_cny && ltb_ℤ l.max_cny price) amount_out_of_range
          >> daily_check l today user_id price)
        _ t
        λ low.
          raise_if-bind (ltb_ℤ (pos 0) l.max_cny && ltb_ℤ l.max_cny price) amount_out_of_range
            (daily_check l today user_id price) _ t
            λ high.
              OnOk-weaken (daily_check l today user_id price) (Daily l today user_id price) _ t
                (daily_check-OnOk l today user_id price t at) λ _ d' q. ((low, high, q.0), q.1)

module _ (limits : Option Limits) (trade_no : String) (today now : ℕ) (i : CreateInput)
    (d : Database) where
  abbrev store : Package → String → Action (ℕ × Order)
  store p url = let o = new_order i p trade_no url now in create_order o >>= λ id. pure (id, o)

  abbrev Stored : Package → String → ℕ → Database → Type 0
  Stored p url id d' =
      (find_where (has_trade_no trade_no) d.orders ≡ none)
      × (id ≡ d.next_order)
      × (d' ≡ record d {
        orders = (d.next_order, new_order i p trade_no url now) ∷ d.orders;
        next_order = d.next_order + 1;
      })

  create_order-Stored :
      (p : Package) (url : String) (t : Session)
      → t.db ≡ d
      → OnOk (Stored p url) (create_order (new_order i p trade_no url now) t)
  unfolding create_order
  create_order-Stored p url t at =
      statement-OnOk _ (Stored p url) t λ id d' e. (ground arith, ground arith, ground arith)

  store-OnOk :
      (p : Package) (url : String) (t : Session)
      → t.db ≡ d
      → find i.package_id d.packages ≡ some p
      → p.enabled ≡ true
      → Allowed limits today i.user_id p.price_cny d
      → OnOk (Opened limits trade_no today now i d) (store p url t)
  store-OnOk p url t at found on_sale allowed =
      OnOk-bind (create_order (new_order i p trade_no url now))
        (λ id. pure (id, new_order i p trade_no url now)) (Stored p url)
        (Opened limits trade_no today now i d) t (create_order-Stored p url t at)
        λ id d' q t' at'. record {
          goods = p;
          url = url;
          found = found;
          on_sale = on_sale;
          allowed = allowed;
          is_new = q.0;
          number = q.1;
          order = refl;
          stored = rw q.1 (at' ∙ q.2);
        }

  get_package-Found :
      (t : Session)
      → t.db ≡ d
      → OnOk
          (λ p d'. (find i.package_id d.packages ≡ some p) × (d' ≡ d))
          (get_package i.package_id t)
  unfolding get_package
  get_package-Found t at =
      statement-OnOk _ (λ p d'. (find i.package_id d.packages ≡ some p) × (d' ≡ d)) t
        λ p d' e. (ground arith, ground arith)

  abbrev extra_of : Params
  extra_of = if str_eq i.pay_type "" then [] else ("type", i.pay_type) ∷ []

  abbrev stored_by : Package → Option String → Action (ℕ × Order)
  stored_by p u = elim u [ none ↦ raise bad_pay_url | some url ↦ store p url ]

  stored_by-OnOk :
      (p : Package) (u : Option String) (t : Session)
      → t.db ≡ d
      → find i.package_id d.packages ≡ some p
      → p.enabled ≡ true
      → Allowed limits today i.user_id p.price_cny d
      → OnOk (Opened limits trade_no today now i d) (stored_by p u t)
  stored_by-OnOk p none t at found on_sale allowed = tt
  stored_by-OnOk p (some url) t at found on_sale allowed =
      store-OnOk p url t at found on_sale allowed

  module _ (config : Config) (pay_url : String → Package → Params → Option String) where
    abbrev for_package : Package → Action (ℕ × Order)
    for_package p = check_limits limits today i.user_id p.price_cny >>= λ _.
        stored_by p (pay_url trade_no p extra_of)

    for_package-OnOk :
        (p : Package) (t : Session)
        → t.db ≡ d
        → find i.package_id d.packages ≡ some p
        → p.enabled ≡ true
        → OnOk (Opened limits trade_no today now i d) (for_package p t)
    for_package-OnOk p t at found on_sale =
        OnOk-bind (check_limits limits today i.user_id p.price_cny)
          (λ _. stored_by p (pay_url trade_no p extra_of))
          (λ _ d'. Allowed limits today i.user_id p.price_cny d × (d' ≡ d))
          (Opened limits trade_no today now i d) t
          (check_limits-OnOk d limits today i.user_id p.price_cny t at)
          λ _ d' q t' at'.
            stored_by-OnOk p (pay_url trade_no p extra_of) t' (at' ∙ q.1) found on_sale q.0

    -- A successful `Create` opens one pending order for a package on sale, with its price, credits
    -- and bonus, for the user and the way of payment that were asked for, unpaid, under a new trade
    -- number, where the price is within the least and the greatest amount and the int64 sum of the
    -- price and what the user paid today is within the daily limit, as far as these limits are set;
    -- nothing else changes.
    pub create-Opened :
        (t : Session)
        → t.db ≡ d
        → OnOk
            (Opened limits trade_no today now i d)
            (create config limits pay_url trade_no today now i t)
    unfolding create
    create-Opened t at = raise_if-bind (not (is_enabled config)) channel_disabled rest _ t λ _.
        raise_if-bind closed recharge_disabled chosen _ t λ _.
          OnOk-bind (get_package i.package_id)
            (λ p. raise_if (not p.enabled) package_unavailable >> for_package p)
            (λ p d'. (find i.package_id d.packages ≡ some p) × (d' ≡ d))
            (Opened limits trade_no today now i d) t (get_package-Found t at)
            λ p d' q t' at'.
              raise_if-bind (not p.enabled) package_unavailable (for_package p) _ t'
                λ on. for_package-OnOk p t' (at' ∙ q.1) q.0 (ground (arith, on))
      where
        closed : Bool
        closed = elim limits [ none ↦ false | some l ↦ not l.recharge_enabled ]

        chosen : Action (ℕ × Order)
        chosen = get_package i.package_id >>= λ p.
            raise_if (not p.enabled) package_unavailable >> for_package p

        rest : Action (ℕ × Order)
        rest = raise_if closed recharge_disabled >> chosen

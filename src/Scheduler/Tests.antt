-- ===== src/Scheduler/Tests.antt =====
-- internal/scheduler at concrete accounts.
use gpt2api.Prelude.{
  ℕ, ◌+◌, ◌≡◌, refl, String, true, false, Option, none, some, [], ◌∷◌, ◌==◌, str_eq, if◌then◌else◌,
  Bool-cases, inl, inr,
}
use gpt2api.Prelude.Int.{pos, negsuc}
use gpt2api.Lock.Holding.{entry}
use gpt2api.Account.{Account, healthy, warned, throttled}
use gpt2api.Proxy.{Proxy}
use gpt2api.Scheduler.{World, Config, RuntimeParams, Lease, defaulted, queue_wait}
use gpt2api.Scheduler.Attempt.{try_dispatch_once}
use gpt2api.Scheduler.Dispatch.{out_of_fuel, Surroundings, dispatch, release_account}
use gpt2api.Scheduler.Waiting.{FromAttempt, dispatch_ends}
use gpt2api.Scheduler.Leasing.{Leased, dispatch-Leased}
use gpt2api.Scheduler.Exclusive.{Excludes, try_dispatch_once-Excludes}
use gpt2api.Scheduler.Releasing.{IsFreed, Reads, release_account_frees}

abbrev account : Account
account = record {
  email = "a@b.c";
  auth_token_enc = "at";
  refresh_token_enc = none;
  session_token_enc = none;
  token_expires_at = some 900000000000000;
  oai_session_id = "s1";
  oai_device_id = "";
  daily_image_quota = pos 10;
  status = healthy;
  cooldown_until = none;
  last_used_at = some 5;
  today_used_count = 7;
  today_used_date = some 0;
  last_refresh_at = none;
  last_refresh_source = "";
  refresh_error = "";
  image_quota_remaining = negsuc 0;
  image_quota_total = negsuc 0;
  image_quota_reset_at = none;
  image_quota_updated_at = none;
  deleted_at = none;
}

-- The first account has reached its maximum, the second has its lock taken.
abbrev world : World
world = record {
  accounts =
      (1, record account { today_used_count = 8 })
      ∷ (2, record account { last_used_at = some 6 })
      ∷ (3, record account { last_used_at = some 7 })
      ∷ (4, record account { status = throttled })
      ∷ (5, record account { status = warned; last_used_at = none })
      ∷ [];
  bindings = (3, 8) ∷ [];
  shared = record {
    proxies =
        (
          8,
          record {
            enabled = true;
            deleted = false;
            health_score = pos 90;
            last_used_at = none;
            last_error = "";
          },
        )
        ∷ [];
    locks = ("acct:lock:2", record { token = "other"; until = some 90000000000000 }) ∷ [];
    turn = 0;
    faulty = λ n. n == 40;
  };
}

abbrev config : Config
config = defaulted (record {
  min_interval_sec = pos 0;
  daily_usage_ratio = pos 0;
  lock_ttl_sec = pos 0;
  cooldown_429_sec = pos 0;
  warned_pause_hours = pos 24;
})

abbrev runtime : RuntimeParams
runtime = record {
  daily_usage_ratio = none;
  cooldown_429_sec = none;
  warned_pause_hours = none;
  queue_wait_sec = some (pos 3);
}

abbrev key_of : ℕ → String
key_of n =
    if n == 1
    then "acct:lock:1"
    else if n == 2
    then "acct:lock:2"
    else if n == 3
    then "acct:lock:3"
    else "acct:lock:9"

abbrev proxy_key_of : ℕ → String
proxy_key_of n = if n == 8 then "proxy:lease:8" else "proxy:lease:9"

abbrev uuid : ℕ → String
uuid n = if n == 2 then "u2" else "u"

abbrev proxy_token : ℕ → ℕ → String
proxy_token n id = "p"

abbrev plain : String → Option String
plain s = some s

abbrev url_of : ℕ → Proxy → Option String
url_of id p = some "http://p"

abbrev day_of : ℕ → ℕ
day_of t = 0

abbrev around : Surroundings
around = record { others = λ n w. w; late = λ n. 1000; spent = λ n. 7; cancelled = λ n. false }

abbrev now : ℕ
now = 60000000000

key_shape :
    (n : ℕ) (s : String)
    → str_eq "acct:lock:1" s ≡ false
    → str_eq "acct:lock:2" s ≡ false
    → str_eq "acct:lock:3" s ≡ false
    → str_eq "acct:lock:9" s ≡ false
    → str_eq (key_of n) s ≡ false
key_shape n s a b c d = elim (Bool-cases (n == 1)) [
  | inl e ↦ rw e a
  | inr e ↦ elim (Bool-cases (n == 2)) [
    | inl f ↦ rw (e, f) b
    | inr f ↦ elim (Bool-cases (n == 3)) [ inl g ↦ rw (e, f, g) c | inr g ↦ rw (e, f, g) d ]
  ]
]

apart : (id j : ℕ) → str_eq (key_of id) (proxy_key_of j) ≡ false
apart id j =
    key_shape id (proxy_key_of j) (one "acct:lock:1" refl refl) (one "acct:lock:2" refl refl)
      (one "acct:lock:3" refl refl) (one "acct:lock:9" refl refl)
  where
    one :
        (s : String)
        → str_eq s "proxy:lease:8" ≡ false
        → str_eq s "proxy:lease:9" ≡ false
        → str_eq s (proxy_key_of j) ≡ false
    one s a b = elim (Bool-cases (j == 8)) [ inl e ↦ rw e a | inr e ↦ rw e b ]

dispatch_ends_example :
    ¬ (dispatch key_of proxy_key_of uuid proxy_token plain url_of day_of config runtime around now
      "chat" world).0
    ≡ out_of_fuel
dispatch_ends_example =
    dispatch_ends key_of proxy_key_of uuid proxy_token plain url_of day_of config runtime around now
      "chat" world

dispatch-Leased_example :
    FromAttempt
      (λ t v.
        try_dispatch_once key_of proxy_key_of uuid proxy_token plain url_of day_of config runtime t
          "chat" v)
      around
      (now + queue_wait runtime)
      (λ t v l w'.
        Leased key_of proxy_key_of uuid proxy_token plain url_of day_of config runtime t "chat"
          apart v l w')
      (dispatch key_of proxy_key_of uuid proxy_token plain url_of day_of config runtime around now
        "chat" world)
dispatch-Leased_example =
    dispatch-Leased key_of proxy_key_of uuid proxy_token plain url_of day_of config runtime around
      "chat" apart now world

try_dispatch_once-Excludes_example :
    Excludes key_of proxy_key_of uuid proxy_token plain url_of day_of config runtime now "chat"
      apart 2
      (record { token = "other"; until = some 90000000000000 })
      refl
      (try_dispatch_once key_of proxy_key_of uuid proxy_token plain url_of day_of config runtime now
        "chat" world)
unfolding entry
try_dispatch_once-Excludes_example =
    try_dispatch_once-Excludes key_of proxy_key_of uuid proxy_token plain url_of day_of config
      runtime now "chat" apart 2 (record { token = "other"; until = some 90000000000000 }) refl
      world refl

abbrev calm_world : World
calm_world = record world { shared = record (world.shared) { faulty = λ n. false } }

abbrev lease : Lease
lease = record {
  account_id = 2;
  account = account;
  auth_token = "at";
  proxy_url = "http://p";
  proxy_id = 8;
  device_id = "d";
  session_id = "s1";
  proxy_lease = some (record {
    lease = record {
      proxy_id = 8;
      proxy_url = "http://p";
      lock_key = "proxy:lease:8";
      lock_token = "p";
    };
    released = false;
    reported = false;
  });
  lock_key = "acct:lock:2";
  lock_token = "other";
}

release_account_frees_example :
    IsFreed now lease (release_account day_of now lease calm_world).1
    × Reads now
        (day_of now)
        2
        calm_world.accounts
        (release_account day_of now lease calm_world).1.accounts
release_account_frees_example = release_account_frees day_of now lease calm_world (λ n. refl)

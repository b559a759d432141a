-- ===== src/Proxy/Tests.antt =====
-- internal/proxy/allocator.go at concrete inputs.
use gpt2api.Prelude.{
  ℕ, String, refl, false, true, Option, none, some, [], ◌∷◌, arith, ◌==◌, if◌then◌else◌,
}
use gpt2api.Prelude.Int.{pos}
use gpt2api.Db.Table.{find}
use gpt2api.Db.Keys.{IsKeyed}
use gpt2api.Proxy.{Proxy, World, lease}
use gpt2api.Proxy.Leasing.{Ends, lease-Ends}

abbrev good : Proxy
good = record {
  enabled = true;
  deleted = false;
  health_score = pos 100;
  last_used_at = some 5;
  last_error = "";
}

abbrev pool : World
pool = record {
  proxies =
      (1, good)
      ∷ (2, record good { health_score = pos 40 })
      ∷ (3, record good { enabled = false })
      ∷ [];
  locks = ("proxy:lease:1", record { token = "x"; until = none }) ∷ [];
  turn = 0;
  faulty = λ n. n == 9;
}

abbrev key_of : ℕ → String
key_of n = if n == 1 then "proxy:lease:1" else "proxy:lease:2"

abbrev token_of : ℕ → String
token_of n = "t"

abbrev url_of : ℕ → Proxy → Option String
url_of n p = some "http://p"

pool-IsKeyed : IsKeyed 4 pool.proxies
unfolding find
pool-IsKeyed = (omega arith, refl, (omega arith, refl, (omega arith, refl, tt)))

lease-Ends_example :
    Ends key_of url_of 50 180000 token_of pool (lease key_of url_of 50 180000 token_of pool)
lease-Ends_example = lease-Ends key_of url_of 50 180000 token_of 4 pool pool-IsKeyed

-- ===== src/RateLimit.antt =====
-- internal/ratelimit/limiter.go over pkg/ratelimit/token_bucket.go: the token buckets of API keys.
-- The rate of a bucket is its capacity in a minute, so tokens are counted in 60000ths, of which a
-- bucket gains its capacity in each millisecond; the script's floats are taken to be exact. Times
-- are milliseconds. `rpm_key` and `tpm_key` name the buckets, and `fails` says that the driver
-- reports an error: the script has not run.
pub mod Window
mod Tests
use gpt2api.Prelude.{
  ℕ, ◌+◌, ◌*◌, String, Bool, true, false, ◌||◌, Option, none, some, List, [], ◌∷◌, ltb, leb, str_eq,
  if◌then◌else◌,
}
use gpt2api.Prelude.Int.{ℤ, pos, pos_part, ltb_ℤ, leb_ℤ, ◌+ℤ◌, ◌-ℤ◌}

-- The hash of a key, and when it expires.
pub record Bucket : Type 0 where
  pub tokens : ℤ
  pub ts : ℕ
  pub until : ℕ

abbrev pub Store : Type 0
Store = List (String × Bucket)

-- HMGET of a key that has not expired
unfoldable pub look_up : ℕ → String → Store → Option Bucket
look_up now k [] = none
look_up now k ((j, b) ∷ s) =
    if str_eq k j then (if ltb now b.until then some b else none) else look_up now k s

-- HMSET and PEXPIRE
unfoldable pub put : String → Bucket → Store → Store
put k b [] = (k, b) ∷ []
put k b ((j, x) ∷ s) = if str_eq k j then (j, b) ∷ s else (j, x) ∷ put k b s

abbrev pub unit : ℕ
unit = 60000

abbrev pub min_ℤ : ℤ → ℤ → ℤ
min_ℤ a b = if ltb_ℤ b a then b else a

-- The tokens in a bucket before the cost is taken.
abbrev pub filled : ℕ → ℕ → Option Bucket → ℤ
filled capacity now none =
    min_ℤ (pos (capacity * unit))
      (pos (capacity * unit) +ℤ (pos (now * capacity) -ℤ pos (now * capacity)))
filled capacity now (some b) =
    min_ℤ (pos (capacity * unit)) (b.tokens +ℤ (pos (now * capacity) -ℤ pos (b.ts * capacity)))

-- The time to live is capacity / refill * 2000 milliseconds, which is two minutes at this rate.
abbrev pub bucket_at : ℕ → ℤ → Bucket
bucket_at now tokens = record { tokens = tokens; ts = now; until = now + 120000 }

-- The script on the bucket that it reads.
abbrev pub taken : ℕ → ℕ → ℕ → ℤ → Bool × Bucket
taken capacity cost now tokens =
    if leb_ℤ (pos (cost * unit)) tokens
    then (true, bucket_at now (tokens -ℤ pos (cost * unit)))
    else (false, bucket_at now tokens)

-- The answer of `Allow`: allowed or not, or an error.
pub data Answer : Type 0 where
  allowed : Answer
  denied : Answer
  failed : Answer

abbrev pub answered : String → Store → Bool × Bucket → Answer × Store
answered key s (true, b) = (allowed, put key b s)
answered key s (false, b) = (denied, put key b s)

-- `TokenBucket.Allow`, at the rate of `capacity` in a minute; the tokens that are left are not returned.
unfoldable pub allow : Bool → ℕ → String → ℕ → ℕ → Store → Answer × Store
allow fails now key capacity cost s =
    if fails
    then (failed, s)
    else answered key s (taken capacity cost now (filled capacity now (look_up now key s)))

module _ (rpm_key tpm_key : ℕ → String) where
  -- `AllowRPM`
  unfoldable pub allow_rpm : Bool → ℕ → ℕ → ℤ → Store → Answer × Store
  allow_rpm fails now key_id capacity s =
      if leb_ℤ capacity (pos 0)
      then (allowed, s)
      else allow fails now (rpm_key key_id) (pos_part capacity) 1 s

  -- `AllowTPM`
  unfoldable pub allow_tpm : Bool → ℕ → ℕ → ℤ → ℤ → Store → Answer × Store
  allow_tpm fails now key_id capacity tokens s =
      if leb_ℤ capacity (pos 0) || leb_ℤ tokens (pos 0)
      then (allowed, s)
      else allow fails now (tpm_key key_id) (pos_part capacity) (pos_part tokens) s

  -- `AdjustTPM`, which gives nothing back for a negative difference.
  unfoldable pub adjust_tpm : Bool → ℕ → ℕ → ℤ → ℤ → Store → Store
  adjust_tpm fails now key_id capacity delta s =
      if leb_ℤ capacity (pos 0)
      then s
      else if ltb_ℤ (pos 0) delta
      then (allow fails now (tpm_key key_id) (pos_part capacity) (pos_part delta) s).1
      else s

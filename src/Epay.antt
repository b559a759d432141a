-- ===== src/Epay.antt =====
-- pkg/epay: signatures over request parameters. The MD5 digest in hex, the order of sorted keys,
-- `strings.EqualFold`, the text of an amount and the encoding of a URL are arguments. A Go map and
-- a form are lists of pairs, which stand for their first pairs of each key: `form.Get` and the map
-- read the first pair of a key, and a key is signed once, with that pair.
pub mod Signs
mod Tests
use gpt2api.Prelude.{
  String, Bool, true, false, Option, none, some, List, [], ◌∷◌, ◌&&◌, ◌||◌, not, str_eq, concat,
  if◌then◌else◌,
}
use gpt2api.Prelude.Int.{ℤ}

abbrev pub Params : Type 0
Params = List (String × String)

-- `NotifyPayload`
pub record Payload : Type 0 where
  pub out_trade_no : String
  pub trade_no : String
  pub trade_status : String
  pub name : String
  pub money : String
  pub pay_type : String
  pub raw : Params

-- `params[k]`, and `form.Get(k)`: the empty text where the key is missing.
unfoldable pub get : String → Params → String
get k [] = ""
get k ((j, v) ∷ p) = if str_eq k j then v else get k p

-- `params[k] = v`
unfoldable pub set : String → String → Params → Params
set k v [] = (k, v) ∷ []
set k v ((j, w) ∷ p) = if str_eq k j then (j, v) ∷ p else (j, w) ∷ set k v p

-- The keys that are signed: neither `sign` nor `sign_type`, and with a value.
abbrev pub is_signed : String → String → Bool
is_signed k v = not (str_eq k "sign" || str_eq k "sign_type") && not (str_eq v "")

-- The keys but for `k`.
unfoldable pub without : String → List String → List String
without k [] = []
without k (j ∷ ks) = let rest = without k ks in if str_eq k j then rest else j ∷ rest

unfoldable pub signed_keys : Params → List String
signed_keys [] = []
signed_keys ((k, v) ∷ p) =
    let rest = without k (signed_keys p) in if is_signed k v then k ∷ rest else rest

module _ (digest : String → String) (sorted : List String → List String)
    (equal_fold : String → String → Bool) (key : String) where
  -- The loop of `Sign` over the sorted keys; the first pair has no `&`.
  unfoldable pub joined : Bool → List String → Params → String
  joined first [] params = ""
  joined first (k ∷ ks) params =
      concat (if first then "" else "&")
        (concat k (concat "=" (concat (get k params) (joined false ks params))))

  -- `Signer.Sign`
  unfoldable pub sign : Params → String
  sign params = digest (concat (joined true (sorted (signed_keys params)) params) key)

  -- `Signer.Verify`
  unfoldable pub verify : Params → String → Bool
  verify params got = if str_eq got "" then false else equal_fold (sign params) got

  -- `Signer.ParseNotify`; the form stands for the map that its loop makes of it.
  unfoldable pub parse_notify : Params → Option Payload
  parse_notify form =
      if verify form (get "sign" form)
      then some (record {
        out_trade_no = get "out_trade_no" form;
        trade_no = get "trade_no" form;
        trade_status = get "trade_status" form;
        name = get "name" form;
        money = get "money" form;
        pay_type = get "type" form;
        raw = form;
      })
      else none

  -- The loop of `BuildPayURL` over the extra fields.
  unfoldable pub add_extra : Params → Params → Params
  add_extra [] p = p
  add_extra ((k, v) ∷ extra) p =
      let rest = add_extra extra in if is_signed k v then rest (set k v p) else rest p

  -- The query of `Signer.BuildPayURL`, which it signs.
  unfoldable pub pay_query :
      (ℤ → String) → String → String → String → String → ℤ → String → String → Params → Params
  pay_query yuan pid sign_type out_trade_no name price notify_url return_url extra =
      let p = add_extra extra (
        ("pid", pid)
        ∷ ("out_trade_no", out_trade_no)
        ∷ ("name", name)
        ∷ ("money", yuan price)
        ∷ ("notify_url", notify_url)
        ∷ ("return_url", return_url)
        ∷ ("sign_type", sign_type)
        ∷ []) in
      set "sign" (sign p) p

  -- `Signer.BuildPayURL`; `with_query` is the parsing of the gateway's URL and the encoding.
  unfoldable pub build_pay_url :
      (ℤ → String)
      → (String → Params → Option String)
      → String
      → String
      → String
      → String
      → String
      → ℤ
      → String
      → String
      → Params
      → Option String
  build_pay_url yuan with_query pid sign_type gateway_url out_trade_no name price notify_url
        return_url extra =
      if str_eq gateway_url ""
      then none
      else with_query gateway_url
          (pay_query yuan pid sign_type out_trade_no name price notify_url return_url extra)

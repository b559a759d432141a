-- ===== src/Epay/Tests.antt =====
-- pkg/epay at concrete inputs.
use gpt2api.Prelude.{
  String, ◌≡◌, refl, false, List, [], ◌∷◌, some, str_eq, eq_iff, if◌then◌else◌, Bool-cases, inl,
  inr,
}
use gpt2api.Epay.{Params, get, set, sign, parse_notify}
use gpt2api.Epay.Signs.{parse_notify-sign}

abbrev marked : String → String
marked x = if str_eq x "" then "-" else x

marked_given : (x : String) → str_eq (marked x) "" ≡ false
marked_given x = elim (Bool-cases (str_eq x "")) [ inl e ↦ rw e refl | inr e ↦ rw e e ]

abbrev unsorted : List String → List String
unsorted ks = ks

abbrev form : Params
form =
    ("out_trade_no", "n1")
    ∷ ("money", "12.00")
    ∷ ("sign", "old")
    ∷ ("trade_status", "TRADE_SUCCESS")
    ∷ []

parse_notify-sign_example :
    parse_notify marked unsorted str_eq "k" (set "sign" (sign marked unsorted str_eq "k" form) form)
    ≡ some (record {
      out_trade_no = "n1";
      trade_no = "";
      trade_status = "TRADE_SUCCESS";
      name = "";
      money = "12.00";
      pay_type = "";
      raw = set "sign" (sign marked unsorted str_eq "k" form) form;
    })
unfolding get
parse_notify-sign_example =
    parse_notify-sign marked unsorted str_eq "k" (λ k ks h. h) marked_given
      (λ x. (eq_iff x x).1 refl) form

-- ===== src/Epay/Signs.antt =====
-- Signatures of pkg/epay are accepted by the signer that made them.
use gpt2api.Prelude.{
  String, ◌≡◌, refl, some, ap, Bool, true, false, List, [], ◌∷◌, ◌&&◌, not, str_eq, eq_iff,
  if◌then◌else◌, Bool-cases, inl, inr, arith,
}
use gpt2api.Epay.{
  Params, get, set, is_signed, without, signed_keys, joined, sign, verify, parse_notify,
}

get-set : (k v : String) (p : Params) → get k (set k v p) ≡ v
unfolding get set
get-set k v [] = rw ((eq_iff k k).1 refl) refl
get-set k v ((j, w) ∷ p) = elim (Bool-cases (str_eq k j)) [
  | inl e ↦ rw e (rw e refl)
  | inr e ↦ rw e (rw e (get-set k v p))
]

get-set_other : (i k v : String) (p : Params) → str_eq i k ≡ false → get i (set k v p) ≡ get i p
unfolding get set
get-set_other i k v [] ne = rw ne refl
get-set_other i k v ((j, w) ∷ p) ne = elim (Bool-cases (str_eq k j)) [
  | inl e ↦
      let at : k ≡ j = (eq_iff k j).0 e in
      let ne' : str_eq i j ≡ false = rw (← at) ne in rw e (rw ne' refl)
  | inr e ↦ rw e (ap (λ (x : String). if str_eq i j then w else x) (get-set_other i k v p ne))
]

-- Writing the signature itself changes nothing that is signed.
signed_keys-set : (v : String) (p : Params) → signed_keys (set "sign" v p) ≡ signed_keys p
unfolding signed_keys set without
signed_keys-set v [] = refl
signed_keys-set v ((j, w) ∷ p) = elim (Bool-cases (str_eq "sign" j)) [
  | inl e ↦ let at : "sign" ≡ j = (eq_iff "sign" j).0 e in rw e (rw (← at) refl)
  | inr e ↦ rw e (
      ap (λ (ks : List String). if is_signed j w then j ∷ without j ks else without j ks)
        (signed_keys-set v p))
]

-- No element of the list is `k`.
abbrev pub lacks : String → List String → Bool
lacks k [] = true
lacks k (j ∷ ks) = not (str_eq j k) && lacks k ks

lacks-without :
    (k j : String) (ks : List String) → lacks k ks ≡ true → lacks k (without j ks) ≡ true
unfolding without
lacks-without k j [] h = refl
lacks-without k j (x ∷ ks) h = go (str_eq j x) (lacks-without k j ks (ground (arith, h)))
  where
    go :
        (b : Bool)
        → lacks k (without j ks) ≡ true
        → lacks k (if b then without j ks else x ∷ without j ks) ≡ true
    go true rest = rest
    go false rest = ground (arith, h, rest)

signed_keys-lacks : (p : Params) → lacks "sign" (signed_keys p) ≡ true
unfolding signed_keys
signed_keys-lacks [] = refl
signed_keys-lacks ((j, w) ∷ p) = elim (Bool-cases (str_eq j "sign")) [
  | inl e ↦ rw e (lacks-without "sign" j (signed_keys p) (signed_keys-lacks p))
  | inr e ↦ keep e (is_signed j w) (lacks-without "sign" j (signed_keys p) (signed_keys-lacks p))
]
  where
    keep :
        str_eq j "sign" ≡ false
        → (b : Bool) → lacks "sign" (without j (signed_keys p)) ≡ true
        → lacks "sign" (if b then j ∷ without j (signed_keys p) else without j (signed_keys p))
          ≡ true
    keep e true rest = rw (e, rest) refl
    keep e false rest = rest

module _ (digest : String → String) (sorted : List String → List String)
    (equal_fold : String → String → Bool) (key : String)
    -- sorting adds no element
    (sorted-lacks : (k : String) (ks : List String)
      → lacks k ks ≡ true
      → lacks k (sorted ks) ≡ true)
    -- a digest is not empty, and a text equals itself under folding
    (digest_given : (x : String) → str_eq (digest x) "" ≡ false)
    (fold_refl : (x : String) → equal_fold x x ≡ true) where
  joined-set :
      (first : Bool) (ks : List String) (v : String) (p : Params)
      → lacks "sign" ks ≡ true
      → joined digest sorted equal_fold key first ks (set "sign" v p)
        ≡ joined digest sorted equal_fold key first ks p
  unfolding joined
  joined-set first [] v p h = refl
  joined-set first (k ∷ ks) v p h =
      let ne : str_eq k "sign" ≡ false = ground arith in
      let later : lacks "sign" ks ≡ true = ground arith in
      rw (get-set_other k "sign" v p ne, joined-set false ks v p later) refl

  pub sign-set :
      (v : String) (p : Params)
      → sign digest sorted equal_fold key (set "sign" v p) ≡ sign digest sorted equal_fold key p
  unfolding sign
  sign-set v p =
      rw
        (
          signed_keys-set v p,
          joined-set true (sorted (signed_keys p)) v p
              (sorted-lacks "sign" (signed_keys p) (signed_keys-lacks p)),
        )
        refl

  sign_given : (p : Params) → str_eq (sign digest sorted equal_fold key p) "" ≡ false
  unfolding sign
  sign_given p = digest_given _

  verify-sign :
      (p : Params)
      → verify digest sorted equal_fold key
          (set "sign" (sign digest sorted equal_fold key p) p)
          (sign digest sorted equal_fold key p)
        ≡ true
  unfolding verify
  verify-sign p = rw (sign_given p, sign-set (sign digest sorted equal_fold key p) p) (fold_refl _)

  -- A form that carries the signature of its other fields is accepted, and read as those fields,
  -- where sorting adds no key, a digest is not empty and a text equals itself under folding.
  pub parse_notify-sign :
      (p : Params)
      → parse_notify digest sorted equal_fold key
          (set "sign" (sign digest sorted equal_fold key p) p)
        ≡ some (record {
          out_trade_no = get "out_trade_no" p;
          trade_no = get "trade_no" p;
          trade_status = get "trade_status" p;
          name = get "name" p;
          money = get "money" p;
          pay_type = get "type" p;
          raw = set "sign" (sign digest sorted equal_fold key p) p;
        })
  unfolding parse_notify
  parse_notify-sign p =
      let s = sign digest sorted equal_fold key p in
      rw
        (
          get-set "sign" s p,
          verify-sign p,
          get-set_other "out_trade_no" "sign" s p refl,
          get-set_other "trade_no" "sign" s p refl,
          get-set_other "trade_status" "sign" s p refl,
          get-set_other "name" "sign" s p refl,
          get-set_other "money" "sign" s p refl,
          get-set_other "type" "sign" s p refl,
        )
        refl

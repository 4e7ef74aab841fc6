-- ===== src/Config/Endpoints.antt =====
-- `PUSH_ENDPOINTS` and `GET_ENDPOINTS` of antelope-firewall-lib/src/config.rs.
use antelope_firewall.Prelude.{
  ◌≡◌, refl, ap, inl, inr, Bool, true, false, not, ◌&&◌, List, [], ◌∷◌, arith, Text, codes, ◌==◌,
  eq_of_text, Bool-cases, contains,
}

unfoldable pub push_endpoints : List Text
push_endpoints =
    codes "/v1/chain/push_transaction"
    ∷ codes "/v1/chain/send_transaction"
    ∷ codes "/v1/chain/push_transactions"
    ∷ codes "/v1/chain/send_transaction2"
    ∷ codes "/v1/chain/compute_transaction"
    ∷ codes "/v1/chain/send_read_only_transaction"
    ∷ codes "/v1/chain/push_block"
    ∷ []

unfoldable pub get_endpoints : List Text
get_endpoints =
    codes "/v1/chain/get_account"
    ∷ codes "/v1/chain/get_block"
    ∷ codes "/v1/chain/get_block_info"
    ∷ codes "/v1/chain/get_info"
    ∷ codes "/v1/chain/get_block_header_state"
    ∷ codes "/v1/chain/get_abi"
    ∷ codes "/v1/chain/get_currency_balance"
    ∷ codes "/v1/chain/get_currency_stats"
    ∷ codes "/v1/chain/get_required_keys"
    ∷ codes "/v1/chain/get_producers"
    ∷ codes "/v1/chain/get_raw_code_and_abi"
    ∷ codes "/v1/chain/get_scheduled_transactions"
    ∷ codes "/v1/chain/get_table_by_scope"
    ∷ codes "/v1/chain/get_table_rows"
    ∷ codes "/v1/chain/get_code"
    ∷ codes "/v1/chain/get_raw_abi"
    ∷ codes "/v1/chain/get_activated_protocol_features"
    ∷ codes "/v1/chain/get_accounts_by_authorizers"
    ∷ codes "/v1/chain/get_transaction_status"
    ∷ codes "/v1/chain/get_producer_schedule"
    ∷ []

unfoldable pub is_get : Text → Bool
is_get path = contains get_endpoints path

unfoldable pub is_push : Text → Bool
is_push path = contains push_endpoints path

-- No element of the first list is in the second.
abbrev apart : List Text → List Text → Bool
apart [] ys = true
apart (x ∷ xs) ys = not (contains ys x) && apart xs ys

apart_sound :
    (xs ys : List Text) (t : Text)
    → apart xs ys ≡ true
    → contains xs t ≡ true
    → contains ys t ≡ false
apart_sound [] ys t h e = cc
apart_sound (x ∷ xs) ys t h e = elim (Bool-cases (x == t)) [
  | inl same ↦ ground (arith, ap (contains ys) (eq_of_text x t same))
  | inr other ↦ ground (arith, other, apart_sound xs ys t)
]

push_get_apart : apart push_endpoints get_endpoints ≡ true
unfolding push_endpoints get_endpoints ◌==◌
push_get_apart = refl

-- No path is both a push endpoint and a read endpoint.
pub push-not-get : (path : Text) → is_push path ≡ true → is_get path ≡ false
unfolding is_push is_get
push-not-get path h = apart_sound push_endpoints get_endpoints path push_get_apart h

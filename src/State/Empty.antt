-- ===== src/State/Empty.antt =====
-- `AccountInfo::is_empty` and the number of entries that the map of balances holds.
use sabvm.Prelude.{Bool, true, false, ◌&&◌, ◌||◌, [], ◌∷◌, ◌≡◌, arith, ◌==◌, length}
use sabvm.State.Defs.{
  U256, AccountInfo, TokenBalances, base_token_id, lookup, insert, is_some, unwrap_or, get_balance,
  get_base_balance, set_balance, is_empty, is_empty_code_hash, only_has_base_balance,
  is_base_balance_zero,
}

-- What `is_empty` asks of the balances.
abbrev empty_balances : TokenBalances → Bool
empty_balances m =
    length m == 0
    || ((length m == 1 && is_some (lookup base_token_id m))
        && unwrap_or 0 (lookup base_token_id m) == 0)

empty_balances-insert :
    (t v : U256) (m : TokenBalances)
    → (t == base_token_id) ≡ false
    → empty_balances m ≡ true
    → empty_balances (insert t v m) ≡ false
empty_balances-insert t v [] ne h = ground (arith, ne)
empty_balances-insert t v ((k, w) ∷ []) ne h = ground (arith, ne, h)
empty_balances-insert t v ((k, w) ∷ ((j, u) ∷ m)) ne h = ground (arith, h)

-- An account that is empty stops being empty when a balance of a token other than the base token
-- is written to it, even a balance of zero.
pub is_empty-set_balance :
    (t v : U256) (info : AccountInfo)
    → (t == base_token_id) ≡ false
    → is_empty info ≡ true
    → is_empty (set_balance t v info) ≡ false
unfolding is_empty is_empty_code_hash only_has_base_balance is_base_balance_zero get_base_balance
    get_balance set_balance
is_empty-set_balance t v info ne h =
    ground (arith, empty_balances-insert t v info.balances ne (ground (arith, h)))

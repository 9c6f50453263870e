-- ===== src/Journal/Tokens.antt =====
-- Native tokens: loading their ids, transfers, minting and burning.
use sabvm.Prelude.{
  Bool, true, false, not, ⊤, List, [], ◌∷◌, ◌++◌, Option, none, some, ◌==◌, if◌then◌else◌, contains,
  checked_add, checked_sub, u256_mod, be_bytes,
}
use sabvm.State.{Address, U256, Account, get_balance, set_balance}
use sabvm.Journal.Defs.{
  balance_transfer, tokens_burned, token_ids_loaded, tokens_minted, Database, DbResult, value,
  failed, M, done, ◌>>=◌, ◌>>◌, pure, query, is_err, get_account, put_account, push_entry,
}
use sabvm.Journal.Accounts.{Crypto, touch_account, load_account}

-- `TokenTransfer` (crates/primitives/src/env.rs)
pub record TokenTransfer : Type 0 where
  pub id : U256
  pub amount : U256

-- The results of `transfer` (of `InstructionResult`).
pub data TransferError : Type 0 where
  out_of_funds overflow_payment : TransferError

-- `token_id_address` (crates/primitives/src/utilities.rs)
unfoldable pub token_id_address : Crypto → Address → U256 → U256
token_id_address crypto address sub_id =
    crypto.keccak256 (be_bytes 20 address ++ be_bytes 32 sub_id)

abbrev pub set_token_ids : List U256 → M ⊤
set_token_ids ids s = done tt (record s { state = record (s.state) { token_ids = ids } })

-- `load_native_token_ids`: the ids are asked for while there are none.
unfoldable pub load_native_token_ids : Database → M Bool
load_native_token_ids db s =
    let load : M Bool = do
      ids ← query db.get_token_ids
      set_token_ids ids
      push_entry (token_ids_loaded ids)
      pure true
    in elim s.state.token_ids [ [] ↦ load s | _ ∷ _ ↦ done false s ]

abbrev pub with_balance : Account → U256 → U256 → Account
with_balance acc token_id balance = record acc { info = set_balance token_id balance acc.info }

-- `sub amount from`; `false` where the balance is too small.
unfoldable pub debit : Address → U256 → U256 → M Bool
unfolding touch_account
debit from token_id amount = do
  from_account ← get_account from
  from_account ← touch_account from from_account
  elim (checked_sub (get_balance token_id from_account.info) amount) [
    | none ↦ pure false
    | some balance ↦ put_account from (with_balance from_account token_id balance) >> pure true
  ]

-- `add amount to`; `false` where the balance would overflow.
unfoldable pub credit : Address → U256 → U256 → M Bool
unfolding touch_account
credit to token_id amount = do
  to_account ← get_account to
  to_account ← touch_account to to_account
  elim (checked_add u256_mod (get_balance token_id to_account.info) amount) [
    | none ↦ pure false
    | some balance ↦ put_account to (with_balance to_account token_id balance) >> pure true
  ]

-- The rest of the turn, after the credit and after the debit.
unfoldable pub record_transfer : Address → Address → TokenTransfer → Bool → M (Option TransferError)
record_transfer from to t true = push_entry (balance_transfer from to t.id t.amount) >> pure none
record_transfer from to t false = pure (some overflow_payment)

unfoldable pub credit_recipient :
    Address → Address → TokenTransfer → Bool → M (Option TransferError)
unfolding credit record_transfer
credit_recipient from to t true = credit to t.id t.amount >>= record_transfer from to t
credit_recipient from to t false = pure (some out_of_funds)

-- One turn of the loop of `transfer`.
unfoldable pub transfer_token : Address → Address → TokenTransfer → M (Option TransferError)
unfolding debit credit_recipient
transfer_token from to t = debit from t.id t.amount >>= credit_recipient from to t

-- The loop: it stops at the first failure.
unfoldable pub transfer_loop : Address → Address → List TokenTransfer → M (Option TransferError)
transfer_loop from to [] = pure none
transfer_loop from to (t ∷ transfers) = do
  result ← transfer_token from to t
  elim result [ some e ↦ pure (some e) | none ↦ transfer_loop from to transfers ]

unfoldable pub transfer :
    Database → Address → Address → List TokenTransfer → M (Option TransferError)
unfolding load_native_token_ids load_account transfer_loop transfer_token
transfer db from to transfers = do
  load_native_token_ids db
  load_account db from
  load_account db to
  transfer_loop from to transfers

-- `result.is_err() || result.is_ok_and(|r| !r)`
abbrev pub is_invalid : DbResult Bool → Bool
is_invalid failed = true
is_invalid (value valid) = not valid

unfoldable pub burn : Crypto → Database → Address → U256 → Address → U256 → M Bool
unfolding load_native_token_ids load_account token_id_address
burn crypto db burner sub_id token_holder amount =
    let token_id = token_id_address crypto burner sub_id in
    let debit_holder : M Bool = do
      account ← get_account token_holder
      elim (checked_sub (get_balance token_id account.info) amount) [
        | none ↦ pure false
        | some new_balance ↦ do
          put_account token_holder (with_balance account token_id new_balance)
          push_entry (tokens_burned token_holder token_id amount)
          pure true
      ]
    in let check_id : M Bool =
        if is_invalid (db.is_token_id_valid token_id) then pure false else debit_holder in
      let load_holder : M Bool = do
        failed_load ← is_err (load_account db token_holder)
        if failed_load then pure false else check_id
      in let load_ids : M Bool = do
        failed_load ← is_err (load_native_token_ids db)
        if failed_load then pure false else load_holder
        in if amount == 0 then pure false else load_ids

-- The id of a minted token joins the ids that are known.
abbrev pub add_token_id : U256 → M ⊤
add_token_id token_id s =
    (if contains s.state.token_ids token_id
        then pure tt
        else set_token_ids (s.state.token_ids ++ (token_id ∷ [])))
      s

-- It is the minter that is loaded; the recipient is looked up by `get_mut(..).unwrap()`.
unfoldable pub mint : Crypto → Database → Address → Address → U256 → U256 → M Bool
unfolding load_native_token_ids load_account token_id_address
mint crypto db minter recipient sub_id amount =
    let token_id = token_id_address crypto minter sub_id in
    let credit_recipient : M Bool = do
      account ← get_account recipient
      elim (checked_add u256_mod (get_balance token_id account.info) amount) [
        | none ↦ pure false
        | some new_balance ↦ do
          put_account recipient (with_balance account token_id new_balance)
          add_token_id token_id
          push_entry (tokens_minted minter recipient token_id amount)
          pure true
      ]
    in let load_minter : M Bool = do
      failed_load ← is_err (load_account db minter)
      if failed_load then pure false else credit_recipient
      in do
        failed_load ← is_err (load_native_token_ids db)
        if failed_load then pure false else load_minter

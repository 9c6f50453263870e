-- ===== src/Journal/Lifecycle.antt =====
-- Creation and self-destruction of accounts.
use sabvm.Prelude.{Bool, not, ⊤, ◌||◌, none, some, ◌==◌, if◌then◌else◌, checked_add, u256_mod}
use sabvm.State.{
  Address, U256, SpecId, enabled, spurious_dragon, cancun, Account, EvmStorage, new_slot,
  get_base_balance, set_base_balance, increase_base_balance, decrease_base_balance, mark_created,
  mark_selfdestruct, keccak_empty, base_token_id,
}
use sabvm.Journal.Defs.{
  ◌>>=◌, account_destroyed, account_created, balance_transfer, JournalCheckpoint, Database, M, ◌>>◌,
  pure, get_account, put_account, push_entry,
}
use sabvm.Journal.Accounts.{touch_account, load_account_exist}
use sabvm.Journal.Revert.{checkpoint, checkpoint_revert, on_info}

-- `Result<JournalCheckpoint, InstructionResult>`
pub data CreateResult : Type 0 where
  created_at : JournalCheckpoint → CreateResult
  create_collision overflow_payment : CreateResult

-- Every slot that is present becomes `EvmStorageSlot::default()`.
abbrev pub reset_storage : EvmStorage → EvmStorage
reset_storage storage key = elim (storage key) [ none ↦ none | some _ ↦ some (new_slot 0) ]

-- The account as created: its flag, no code, all its slots reset.
unfoldable pub start_account : Account → Account
unfolding mark_created
start_account acc =
    let marked = mark_created acc in
    record marked {
      info = record (marked.info) { code = none };
      storage = reset_storage marked.storage;
    }

-- With its first balance, and from Spurious Dragon on with nonce 1.
unfoldable pub fund_account : SpecId → U256 → Account → Account
fund_account spec_id new_base_balance acc =
    let funded = set_base_balance new_base_balance acc.info in
    record acc {
      info = if enabled spec_id spurious_dragon then record funded { nonce = 1 } else funded;
    }

unfoldable pub create_account_checkpoint : Address → Address → U256 → SpecId → M CreateResult
unfolding checkpoint checkpoint_revert touch_account start_account fund_account
create_account_checkpoint caller address balance spec_id = do
  mark ← checkpoint
  account ← get_account address
  let fail : CreateResult → M CreateResult = λ e. checkpoint_revert mark >> pure e
  let finish : U256 → Account → M CreateResult = λ new_base_balance acc. do
    put_account address (fund_account spec_id new_base_balance acc)
    caller_account ← get_account caller
    put_account caller (on_info (decrease_base_balance balance) caller_account)
    push_entry (balance_transfer caller address base_token_id balance)
    pure (created_at mark)
  let start : M CreateResult = do
    push_entry (account_created address)
    put_account address (start_account account)
    acc ← touch_account address (start_account account)
    elim (checked_add u256_mod (get_base_balance acc.info) balance) [
      | none ↦ fail overflow_payment
      | some new_base_balance ↦ finish new_base_balance acc
    ]
  λ s.
      (if not (account.info.code_hash == keccak_empty)
            || not (account.info.nonce == 0)
            || s.warm_preloaded_addresses address
          then fail create_collision
          else start)
        s

pub record SelfDestructResult : Type 0 where
  pub had_value : Bool
  pub target_exists : Bool
  pub is_cold : Bool
  pub previously_destroyed : Bool

-- The balance of `address` is added to `target`, another account.
unfoldable pub pay_target : Address → Address → M ⊤
unfolding touch_account
pay_target address target =
    let pay : M ⊤ = do
      acc ← get_account address
      let acc_balance = get_base_balance acc.info
      target_account ← get_account target
      target_account ← touch_account target target_account
      put_account target (on_info (increase_base_balance acc_balance) target_account)
    in if address == target then pure tt else pay

unfoldable pub selfdestruct : Database → Address → Address → M SelfDestructResult
unfolding load_account_exist pay_target mark_selfdestruct
selfdestruct db address target = do
  load_result ← load_account_exist db target
  pay_target address target
  acc ← get_account address
  let balance = get_base_balance acc.info
  let previously_destroyed = acc.status.self_destructed
  let destroy : M ⊤ = do
    put_account address (on_info (set_base_balance 0) (mark_selfdestruct acc))
    push_entry (account_destroyed address target previously_destroyed balance)
  let move : M ⊤ = do
    put_account address (on_info (set_base_balance 0) acc)
    push_entry (balance_transfer address target base_token_id balance)
  λ s.
      ((if acc.status.created || not (enabled s.spec cancun)
            then destroy
            else if not (address == target)
            then move
            else pure tt)
          >> pure (record {
            had_value = not (balance == 0);
            target_exists = not load_result.is_empty_account;
            is_cold = load_result.is_cold;
            previously_destroyed = previously_destroyed;
          }))
        s

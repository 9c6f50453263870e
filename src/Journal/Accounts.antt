-- ===== src/Journal/Accounts.antt =====
-- The methods that load, touch and change single accounts.
use sabvm.Prelude.{
  ℕ, ◌+◌, ◌-◌, ◌%◌, Bool, false, not, ⊤, ◌&&◌, List, [], ◌∷◌, Option, none, some, ◌==◌,
  if◌then◌else◌, u64_mod,
}
use sabvm.State.{
  Address, U256, SpecId, enabled, spurious_dragon, Account, AccountInfo, EvmState, Bytecode,
  is_some, new_slot, update, new_not_existing, from_info, mark_touch, is_empty, keccak_empty,
  bytecode_is_empty,
}
use sabvm.Journal.Defs.{
  ◌>>=◌, account_loaded, account_touched, nonce_change, code_change, JournaledState, Database, M,
  done, ◌>>◌, pure, query, get_account, put_account, push_entry, last_journal, Log,
}

-- The `keccak256` function, whose code is not the program's.
pub record Crypto : Type 0 where
  pub keccak256 : List ℕ → U256

-- `Bytecode::hash_slow`
unfoldable pub hash_slow : Crypto → Bytecode → U256
unfolding bytecode_is_empty
hash_slow crypto code = if bytecode_is_empty code then keccak_empty else crypto.keccak256 code

-- `JournaledState::new`
unfoldable pub new : SpecId → (Address → Bool) → JournaledState
new spec warm_preloaded_addresses = record {
  state = record { accounts = λ _. none; token_ids = [] };
  transient_storage = λ _ _. none;
  logs = [];
  depth = 0;
  journal = [] ∷ [];
  spec = spec;
  warm_preloaded_addresses = warm_preloaded_addresses;
}

unfoldable pub set_spec_id : SpecId → M ⊤
set_spec_id spec s = done tt (record s { spec = spec })

unfoldable pub clear : M ⊤
unfolding new
clear s = done tt (new s.spec (λ _. false))

unfoldable pub finalize : M (EvmState × List Log)
finalize s =
    done (s.state, s.logs)
      (record s {
        state = record { accounts = λ _. none; token_ids = [] };
        transient_storage = λ _ _. none;
        logs = [];
        depth = 0;
        journal = [] ∷ [];
      })

-- `touch_account`: the account as it is left, written back.
unfoldable pub touch_account : Address → Account → M Account
unfolding mark_touch
touch_account address account = do
  last_journal
  let touch : M Account = do
    push_entry (account_touched address)
    put_account address (mark_touch account)
    pure (mark_touch account)
  if account.status.touched then pure account else touch

-- `touch`: an address that is not in the state is left alone.
unfoldable pub touch : Address → M ⊤
unfolding touch_account
touch address s = elim (s.state.accounts address) [
  | none ↦ done tt s
  | some account ↦ (touch_account address account >> pure tt) s
]

-- `account`: it panics where the account is not loaded.
unfoldable pub account : Address → M Account
account address = get_account address

unfoldable pub set_code : Crypto → Address → Bytecode → M ⊤
unfolding touch_account hash_slow
set_code crypto address code = do
  account ← get_account address
  account ← touch_account address account
  push_entry (code_change address)
  put_account address (record account {
    info = record (account.info) { code_hash = hash_slow crypto code; code = some code };
  })

unfoldable pub increment : Address → Account → M (Option ℕ)
unfolding touch_account
increment address account = do
  account ← touch_account address account
  push_entry (nonce_change address)
  let nonce = (account.info.nonce + 1) % u64_mod
  put_account address (record account { info = record (account.info) { nonce = nonce } })
  pure (some nonce)

-- `none` where the nonce would overflow.
unfoldable pub inc_nonce : Address → M (Option ℕ)
unfolding increment
inc_nonce address = do
  account ← get_account address
  if account.info.nonce == u64_mod - 1 then pure none else increment address account

-- What `db.basic` answers, as an account.
abbrev pub loaded_account : Option AccountInfo → Account
loaded_account none = new_not_existing
loaded_account (some info) = from_info info

-- `load_account`: the account, and whether it was cold.
unfoldable pub load_account : Database → Address → M (Account × Bool)
load_account db address s = elim (s.state.accounts address) [
  | some account ↦ done (account, false) s
  | none ↦
      (do
        basic ← query (db.basic address)
        push_entry (account_loaded address)
        put_account address (loaded_account basic)
        pure (loaded_account basic, not (s.warm_preloaded_addresses address)))
        s
]

pub record LoadAccountResult : Type 0 where
  pub is_cold : Bool
  pub is_empty_account : Bool

unfoldable pub load_account_exist : Database → Address → M LoadAccountResult
unfolding load_account is_empty
load_account_exist db address s =
    (do
      (acc, is_cold) ← load_account db address
      let loaded_not_existing = acc.status.loaded_as_not_existing
      let is_not_touched = not acc.status.touched
      let empty =
          if enabled s.spec spurious_dragon
          then is_empty acc.info
          else loaded_not_existing && is_not_touched
      pure (record { is_cold = is_cold; is_empty_account = empty }))
      s

-- `load_code`: a missing code is filled in, and nothing is journaled but the load.
unfoldable pub load_code : Database → Address → M (Account × Bool)
unfolding load_account
load_code db address = do
  (acc, is_cold) ← load_account db address
  let with_code : Bytecode → Account =
      λ code. record acc { info = record (acc.info) { code = some code } }
  let fetch : M Bytecode =
      if acc.info.code_hash == keccak_empty
      then pure []
      else query (db.code_by_hash acc.info.code_hash)
  let fill : M (Account × Bool) = do
    code ← fetch
    put_account address (with_code code)
    pure (with_code code, is_cold)
  if is_some acc.info.code then pure (acc, is_cold) else fill

-- A slot that is not there yet is loaded; the slots loaded before an error stay.
unfoldable pub preload_slot : Database → Address → U256 → M ⊤
preload_slot db address slot = do
  account ← get_account address
  let load : M ⊤ = do
    storage ← query (db.storage address slot)
    put_account address
        (record account { storage = update account.storage slot (some (new_slot storage)) })
  if is_some (account.storage slot) then pure tt else load

unfoldable pub preload_slots : Database → Address → List U256 → M ⊤
preload_slots db address [] = pure tt
preload_slots db address (slot ∷ slots) =
    preload_slot db address slot >> preload_slots db address slots

-- `initial_account_load`: not journaled.
unfoldable pub initial_account_load : Database → Address → List U256 → M Account
unfolding preload_slots preload_slot
initial_account_load db address slots s =
    let insert_missing : M ⊤ = elim (s.state.accounts address) [
      | some _ ↦ pure tt
      | none ↦ do basic ← query (db.basic address); put_account address (loaded_account basic)
    ] in
    (insert_missing >> preload_slots db address slots >> get_account address) s

-- ===== src/Journal/Defs.antt =====
-- The record `JournaledState`, its entries, and the monad in which its methods run: they read and
-- write the state, return early on an error of the database, and panic at an `unwrap` of nothing.
use sabvm.Prelude.{ℕ, Bool, true, false, ⊤, List, [], ◌∷◌, Option, none, some}
use sabvm.State.{
  Address, U256, SpecId, Account, AccountInfo, EvmState, TransientStorage, Bytecode, update,
}

pub data JournalEntry : Type 0 where
  account_loaded : Address → JournalEntry
  -- address, target, was_destroyed, had_balance
  account_destroyed : Address → Address → Bool → U256 → JournalEntry
  account_touched : Address → JournalEntry
  -- from, to, token_id, amount
  balance_transfer : Address → Address → U256 → U256 → JournalEntry
  nonce_change : Address → JournalEntry
  account_created : Address → JournalEntry
  -- address, key, had_value
  storage_change : Address → U256 → Option U256 → JournalEntry
  transient_storage_change : Address → U256 → U256 → JournalEntry
  code_change : Address → JournalEntry
  -- token_holder, token_id, burned_amount
  tokens_burned : Address → U256 → U256 → JournalEntry
  token_ids_loaded : List U256 → JournalEntry
  -- minter, recipient, token_id, minted_amount
  tokens_minted : Address → Address → U256 → U256 → JournalEntry

-- A log is its address, topics and bytes.
pub record Log : Type 0 where
  pub address : Address
  pub topics : List U256
  pub bytes : List ℕ

-- A `Vec` that is used as a stack is a list with its last element first: so stand the logs, the
-- journal, and the entries of each of its parts.
pub record JournaledState : Type 0 where
  pub state : EvmState
  pub transient_storage : TransientStorage
  pub logs : List Log
  pub depth : ℕ
  pub journal : List (List JournalEntry)
  pub spec : SpecId
  pub warm_preloaded_addresses : Address → Bool

pub record JournalCheckpoint : Type 0 where
  pub log_i : ℕ
  pub journal_i : ℕ

pub data DbResult (A : Type 0) : Type 0 where
  value : A → DbResult A
  failed : DbResult A

-- The trait `Database`, whose implementations are parameters of the model.
pub record Database : Type 0 where
  pub basic : Address → DbResult (Option AccountInfo)
  pub code_by_hash : U256 → DbResult Bytecode
  pub storage : Address → U256 → DbResult U256
  pub get_token_ids : DbResult (List U256)
  pub is_token_id_valid : U256 → DbResult Bool

-- How a method ends: with a value, with `EVMError::Database`, or in a panic. The state that was
-- reached is kept on an error, for the callers that go on.
pub data Run (A : Type 0) : Type 0 where
  done : A → JournaledState → Run A
  db_error : JournaledState → Run A
  panic : Run A

abbrev pub M : Type 0 → Type 0
M A = JournaledState → Run A

abbrev pub then_run : {A B : Type 0} → Run A → (A → M B) → Run B
then_run (done a s) f = f a s
then_run (db_error s) f = db_error s
then_run panic f = panic

infixl 5 ◌>>=◌ ◌>>◌
abbrev pub ◌>>=◌ : {A B : Type 0} → M A → (A → M B) → M B
◌>>=◌ m f s = then_run (m s) f

abbrev pub ◌>>◌ : {A B : Type 0} → M A → M B → M B
m >> k = m >>= λ _. k

abbrev pub pure : {A : Type 0} → A → M A
pure a s = done a s

-- `e.map_err(EVMError::Database)?`
abbrev pub query : {A : Type 0} → DbResult A → M A
query (value a) s = done a s
query failed s = db_error s

-- `e.is_err()`, for a call whose value is not used.
abbrev pub is_err : {A : Type 0} → M A → M Bool
is_err m s = elim (m s) [ done _ s' ↦ done false s' | db_error s' ↦ done true s' | panic ↦ panic ]

-- `self.state.accounts.get_mut(&address).unwrap()`
abbrev pub get_account : Address → M Account
get_account address s = elim (s.state.accounts address) [ none ↦ panic | some acc ↦ done acc s ]

abbrev pub set_accounts : (Address → Option Account) → JournaledState → JournaledState
set_accounts f s = record s { state = record (s.state) { accounts = f } }

-- The write through the reference that `get_mut` gave, or that `vac.insert` makes.
abbrev pub put_account : Address → Account → M ⊤
put_account address acc s = done tt (set_accounts (update s.state.accounts address (some acc)) s)

-- `self.journal.last_mut().unwrap().push(entry)`
abbrev pub push_entry : JournalEntry → M ⊤
push_entry entry s = elim s.journal [
  | [] ↦ panic
  | last ∷ rest ↦ done tt (record s { journal = (entry ∷ last) ∷ rest })
]

-- `self.journal.last_mut().unwrap()`, where nothing may be pushed.
abbrev pub last_journal : M ⊤
last_journal s = elim s.journal [ [] ↦ panic | _ ∷ _ ↦ done tt s ]

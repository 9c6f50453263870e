-- ===== src/Journal/Revert.antt =====
-- `JournaledState::journal_revert`, `checkpoint`, `checkpoint_commit` and `checkpoint_revert`.
use sabvm.Prelude.{
  ℕ, zero, suc, ◌+◌, ◌-◌, ◌%◌, Bool, ⊤, ◌&&◌, List, [], ◌∷◌, Option, none, some, leb, length,
  if◌then◌else◌, u64_mod, take, drop, ◌==◌,
}
use sabvm.State.{
  Address, U256, enabled, spurious_dragon, Account, AccountInfo, EvmState, TransientStorage, update,
  precompile3, keccak_empty, mark_selfdestruct, unmark_selfdestruct, unmark_touch, unmark_created,
  increase_base_balance, decrease_base_balance, increase_balance, decrease_balance,
}
use sabvm.Journal.Defs.{
  JournalEntry, account_loaded, account_destroyed, account_touched, balance_transfer, nonce_change,
  account_created, storage_change, transient_storage_change, code_change, tokens_burned,
  token_ids_loaded, tokens_minted, JournaledState, JournalCheckpoint, M, done, panic,
}

-- What a reversal works on.
pub record World : Type 0 where
  pub state : EvmState
  pub transient_storage : TransientStorage

-- `f` on the account at an address; `none` is the panic of the `unwrap`.
unfoldable pub modify_account : Address → (Account → Account) → World → Option World
modify_account address f w = elim (w.state.accounts address) [
  | none ↦ none
  | some acc ↦ some (record w {
    state = record (w.state) { accounts = update w.state.accounts address (some (f acc)) };
  })
]

infixl 5 ◌then_world◌
abbrev pub ◌then_world◌ : Option World → (World → Option World) → Option World
none then_world f = none
some w then_world f = f w

abbrev pub on_info : (AccountInfo → AccountInfo) → Account → Account
on_info f acc = record acc { info = f acc.info }

-- The slot had a value: it becomes the present one again, and a missing slot panics.
unfoldable pub restore_slot : Address → U256 → Option U256 → World → Option World
restore_slot address key none w =
    modify_account address (λ acc. record acc { storage = update acc.storage key none }) w
restore_slot address key (some had_value) w = elim (w.state.accounts address) [
  | none ↦ none
  | some acc ↦ elim (acc.storage key) [
    | none ↦ none
    | some slot ↦
        modify_account address
          (λ a. record a {
            storage = update a.storage key (some (record slot { present_value = had_value }));
          })
          w
  ]
]

unfoldable pub set_transient : Address → U256 → Option U256 → TransientStorage → TransientStorage
set_transient address key v t a k = if a == address && k == key then v else t a k

-- One turn of the loop of `journal_revert`.
unfoldable pub revert_entry : Bool → JournalEntry → World → Option World
revert_entry is_spurious_dragon_enabled (account_loaded address) w =
    some (record w { state = record (w.state) { accounts = update w.state.accounts address none } })
revert_entry is_spurious_dragon_enabled (account_touched address) w =
    if is_spurious_dragon_enabled && address == precompile3
    then some w
    else modify_account address unmark_touch w
revert_entry is_spurious_dragon_enabled (account_destroyed address target was_destroyed had) w =
    modify_account address
      (λ acc.
        on_info (increase_base_balance had)
          (if was_destroyed then mark_selfdestruct acc else unmark_selfdestruct acc))
      w
    then_world λ w'.
        if address == target
        then some w'
        else modify_account target (on_info (decrease_base_balance had)) w'
revert_entry is_spurious_dragon_enabled (balance_transfer from to token_id amount) w =
    modify_account from (on_info (increase_balance token_id amount)) w
    then_world modify_account to (on_info (decrease_balance token_id amount))
revert_entry is_spurious_dragon_enabled (nonce_change address) w =
    modify_account address
      (on_info λ info. record info { nonce = (info.nonce + u64_mod - 1) % u64_mod }) w
revert_entry is_spurious_dragon_enabled (account_created address) w =
    modify_account address
      (λ acc. let acc' = unmark_created acc in on_info (λ info. record info { nonce = 0 }) acc') w
revert_entry is_spurious_dragon_enabled (storage_change address key had_value) w =
    restore_slot address key had_value w
revert_entry is_spurious_dragon_enabled (transient_storage_change address key had_value) w =
    some (record w {
      transient_storage =
          set_transient address key (if had_value == 0 then none else some had_value)
            w.transient_storage;
    })
revert_entry is_spurious_dragon_enabled (code_change address) w =
    modify_account address (on_info λ info. record info { code_hash = keccak_empty; code = none }) w
revert_entry is_spurious_dragon_enabled (tokens_burned token_holder token_id burned_amount) w =
    modify_account token_holder (on_info (increase_balance token_id burned_amount)) w
revert_entry is_spurious_dragon_enabled (token_ids_loaded token_ids) w =
    some (record w { state = record (w.state) { token_ids = [] } })
revert_entry is_spurious_dragon_enabled (tokens_minted minter recipient token_id minted_amount) w =
    modify_account recipient (on_info (decrease_balance token_id minted_amount)) w

-- `journal_revert`: the entries from the last to the first.
unfoldable pub journal_revert : Bool → List JournalEntry → World → Option World
journal_revert dragon [] w = some w
journal_revert dragon (entry ∷ entries) w =
    revert_entry dragon entry w then_world journal_revert dragon entries

-- The same for each of the last parts of the journal.
unfoldable pub revert_parts : Bool → List (List JournalEntry) → World → Option World
revert_parts dragon [] w = some w
revert_parts dragon (entries ∷ parts) w =
    journal_revert dragon entries w then_world revert_parts dragon parts

-- `JournaledState::checkpoint`
unfoldable pub checkpoint : M JournalCheckpoint
checkpoint s =
    let mark : JournalCheckpoint = record { log_i = length s.logs; journal_i = length s.journal } in
    done mark (record s { depth = (s.depth + 1) % u64_mod; journal = [] ∷ s.journal })

unfoldable pub checkpoint_commit : M ⊤
checkpoint_commit s = done tt (record s { depth = (s.depth + u64_mod - 1) % u64_mod })

abbrev pub world : JournaledState → World
world s = record { state = s.state; transient_storage = s.transient_storage }

abbrev pub set_world : World → JournaledState → JournaledState
set_world w s = record s { state = w.state; transient_storage = w.transient_storage }

-- `mem::take` of each of the last parts.
unfoldable pub take_parts : ℕ → List (List JournalEntry) → List (List JournalEntry)
take_parts zero parts = parts
take_parts (suc n) [] = []
take_parts (suc n) (entries ∷ parts) = [] ∷ take_parts n parts

-- `leng - checkpoint.journal_i` on `usize`, which wraps around for a mark that lies beyond the
-- journal (the length of a vector is below `2 ^ 64`).
unfoldable pub usize_sub : ℕ → ℕ → ℕ
usize_sub a b = if leb b a then a - b else a + u64_mod - b

-- `truncate` keeps the first elements, and has no effect on a shorter vector.
unfoldable pub checkpoint_revert : JournalCheckpoint → M ⊤
unfolding usize_sub
checkpoint_revert mark s =
    let leng = length s.journal in
    let undone = usize_sub leng mark.journal_i in
    let reverted =
      revert_parts (enabled s.spec spurious_dragon) (take undone s.journal) (world s) in
    elim reverted [
      | none ↦ panic
      | some w ↦ done tt (record (set_world w s) {
        depth = (s.depth + u64_mod - 1) % u64_mod;
        logs = drop (length s.logs - mark.log_i) s.logs;
        journal = drop (leng - mark.journal_i) (take_parts undone s.journal);
      })
    ]

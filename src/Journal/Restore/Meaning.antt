-- ===== src/Journal/Restore/Meaning.antt =====
-- What the reversal of the journal's entries means on the abstract view.
use sabvm.Prelude.{
  Bool, false, ◌&&◌, List, [], ◌∷◌, Option, none, some, ◌==◌, if◌then◌else◌, wrapping_add,
  wrapping_sub, u64_mod, ◌+◌, ◌-◌, ◌%◌,
}
use sabvm.State.{Address, U256, update, precompile3, keccak_empty, base_token_id}
use sabvm.Journal.{
  JournalEntry, account_loaded, account_destroyed, account_touched, balance_transfer, nonce_change,
  account_created, storage_change, transient_storage_change, code_change, tokens_burned,
  token_ids_loaded, tokens_minted, set_transient,
}
use sabvm.Journal.View.{AccountView, WorldView, modify_view}

unfoldable pub set_balance_view : U256 → U256 → AccountView → AccountView
set_balance_view token_id balance acc = record acc {
  balance = λ u. if u == token_id then balance else acc.balance u;
}

unfoldable pub increase_view : U256 → U256 → AccountView → AccountView
unfolding set_balance_view
increase_view token_id amount acc =
    set_balance_view token_id (wrapping_add (acc.balance token_id) amount) acc

unfoldable pub decrease_view : U256 → U256 → AccountView → AccountView
unfolding set_balance_view
decrease_view token_id amount acc =
    set_balance_view token_id (wrapping_sub (acc.balance token_id) amount) acc

abbrev pub set_touched : Bool → AccountView → AccountView
set_touched b acc = record acc { status = record (acc.status) { touched = b } }

abbrev pub set_destroyed : Bool → AccountView → AccountView
set_destroyed b acc = record acc { status = record (acc.status) { self_destructed = b } }

infixl 5 ◌then_view◌
abbrev pub ◌then_view◌ : Option WorldView → (WorldView → Option WorldView) → Option WorldView
none then_view f = none
some v then_view f = f v

unfoldable pub restore_slot_view : Address → U256 → Option U256 → WorldView → Option WorldView
restore_slot_view address key none v =
    modify_view address (λ acc. record acc { storage = update acc.storage key none }) v
restore_slot_view address key (some had_value) v = elim (v.accounts address) [
  | none ↦ none
  | some acc ↦ elim (acc.storage key) [
    | none ↦ none
    | some slot ↦
        modify_view address
          (λ a. record a {
            storage = update a.storage key (some (record slot { present_value = had_value }));
          })
          v
  ]
]

-- What the reversal of an entry means.
unfoldable pub revert_view : Bool → JournalEntry → WorldView → Option WorldView
revert_view dragon (account_loaded address) v =
    some (record v { accounts = update v.accounts address none })
revert_view dragon (account_touched address) v =
    if dragon && address == precompile3 then some v else modify_view address (set_touched false) v
revert_view dragon (account_destroyed address target was_destroyed had) v =
    modify_view address (λ acc. increase_view base_token_id had (set_destroyed was_destroyed acc)) v
    then_view λ v'.
        if address == target
        then some v'
        else modify_view target (decrease_view base_token_id had) v'
revert_view dragon (balance_transfer from to token_id amount) v =
    modify_view from (increase_view token_id amount) v
    then_view modify_view to (decrease_view token_id amount)
revert_view dragon (nonce_change address) v =
    modify_view address (λ acc. record acc { nonce = (acc.nonce + u64_mod - 1) % u64_mod }) v
revert_view dragon (account_created address) v =
    modify_view address
      (λ acc. record acc { status = record (acc.status) { created = false }; nonce = 0 }) v
revert_view dragon (storage_change address key had_value) v =
    restore_slot_view address key had_value v
revert_view dragon (transient_storage_change address key had_value) v = some (record v {
  transient_storage =
      set_transient address key (if had_value == 0 then none else some had_value)
        v.transient_storage;
})
revert_view dragon (code_change address) v =
    modify_view address (λ acc. record acc { code_hash = keccak_empty }) v
revert_view dragon (tokens_burned token_holder token_id burned_amount) v =
    modify_view token_holder (increase_view token_id burned_amount) v
revert_view dragon (token_ids_loaded token_ids) v = some (record v { token_ids = [] })
revert_view dragon (tokens_minted minter recipient token_id minted_amount) v =
    modify_view recipient (decrease_view token_id minted_amount) v

unfoldable pub journal_revert_view : Bool → List JournalEntry → WorldView → Option WorldView
journal_revert_view dragon [] v = some v
journal_revert_view dragon (entry ∷ entries) v =
    revert_view dragon entry v then_view journal_revert_view dragon entries

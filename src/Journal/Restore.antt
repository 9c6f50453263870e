-- ===== src/Journal/Restore.antt =====
-- The proofs that compare `journal_revert` with the reversal of the abstract view.
mod Meaning
mod Changes
unfoldable pub use Meaning.*
pub use Changes.{set_balance-view, increase-view, decrease-view}
use sabvm.Prelude.{
  Bool, true, false, ◌&&◌, List, [], ◌∷◌, Option, none, some, ◌≡◌, refl, ap, sym, ◌∙◌, ◌==◌,
  if◌then◌else◌, arith, wrapping_add, wrapping_sub, u64_mod, ◌+◌, ◌-◌, ◌%◌, Option-cases, inl, inr,
}
use sabvm.State.{
  Address, U256, Account, AccountInfo, EvmStorage, EvmStorageSlot, update, lookup, unwrap_or,
  get_balance, set_balance, increase_balance, decrease_balance, increase_base_balance,
  decrease_base_balance, mark_selfdestruct, unmark_selfdestruct, unmark_touch, unmark_created,
  precompile3, keccak_empty, base_token_id,
}
use sabvm.State.Balances.{get_balance-set_balance}
use sabvm.Journal.{
  World, modify_account, on_info, JournalEntry, account_loaded, account_destroyed, account_touched,
  balance_transfer, nonce_change, account_created, storage_change, transient_storage_change,
  code_change, tokens_burned, token_ids_loaded, tokens_minted, set_transient, revert_entry,
  restore_slot, journal_revert, ◌then_world◌,
}
use sabvm.Journal.View.{
  AccountView, WorldView, mask, account_view, view, map_option, modify_view, modify_account-view,
}
use sabvm.Journal.Restore.Changes.{
  decrease_base-view, unmark_touch-view, destroyed-view, then_view-lem, view-remove,
  on_storage-view, on_info-view, nonce-view, uncreated-view, no_code-view, if-view, write_slot,
  restore_slot-view,
}

-- Undoing an entry in a world is what it means on the world's view.
pub revert_entry-view :
    (dragon : Bool) (entry : JournalEntry) (w : World)
    → map_option view (revert_entry dragon entry w) ≡ revert_view dragon entry (view w)
unfolding revert_entry revert_view
revert_entry-view dragon (account_loaded address) w = ap some (view-remove address w)
revert_entry-view dragon (account_destroyed address target was_destroyed had) w =
    then_view-lem _ _ _ _
      (modify_account-view address _ _ w (destroyed-view address had was_destroyed))
      λ w'.
        if-view (address == target) _ _ _ _ refl
          (modify_account-view target _ _ w' (decrease_base-view target had))
revert_entry-view dragon (account_touched address) w =
    if-view (dragon && address == precompile3) _ _ _ _ refl
      (modify_account-view address _ _ w (unmark_touch-view address))
revert_entry-view dragon (balance_transfer from to token_id amount) w =
    then_view-lem _ _ _ _ (modify_account-view from _ _ w (increase-view from token_id amount))
      λ w'. modify_account-view to _ _ w' (decrease-view to token_id amount)
revert_entry-view dragon (nonce_change address) w =
    modify_account-view address _ _ w (nonce-view address)
revert_entry-view dragon (account_created address) w =
    modify_account-view address _ _ w (uncreated-view address)
revert_entry-view dragon (storage_change address key had_value) w =
    restore_slot-view address key had_value w
revert_entry-view dragon (transient_storage_change address key had_value) w = unfold view in refl
revert_entry-view dragon (code_change address) w =
    modify_account-view address _ _ w (no_code-view address)
revert_entry-view dragon (tokens_burned token_holder token_id burned_amount) w =
    modify_account-view token_holder _ _ w (increase-view token_holder token_id burned_amount)
revert_entry-view dragon (token_ids_loaded token_ids) w = unfold view in refl
revert_entry-view dragon (tokens_minted minter recipient token_id minted_amount) w =
    modify_account-view recipient _ _ w (decrease-view recipient token_id minted_amount)

-- The program's reversal of a list of entries implements the abstract one: it panics exactly where
-- that is undefined, and else reaches a world with the view that it gives.
pub journal_revert-view :
    (dragon : Bool) (entries : List JournalEntry) (w : World)
    → map_option view (journal_revert dragon entries w)
      ≡ journal_revert_view dragon entries (view w)
unfolding journal_revert journal_revert_view
journal_revert-view dragon [] w = refl
journal_revert-view dragon (entry ∷ entries) w =
    then_view-lem _ _ _ _ (revert_entry-view dragon entry w) (journal_revert-view dragon entries)

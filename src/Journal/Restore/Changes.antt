-- ===== src/Journal/Restore/Changes.antt =====
-- The changes that a reversal makes to an account, seen on the abstract view.
use sabvm.Prelude.{
  Bool, true, false, Option, none, some, ◌≡◌, refl, ap, sym, ◌∙◌, if◌then◌else◌, arith,
  wrapping_add, wrapping_sub, u64_mod, ◌+◌, ◌-◌, ◌%◌, Option-cases, inl, inr,
}
use sabvm.State.{
  Address, U256, Account, AccountInfo, EvmStorage, EvmStorageSlot, update, lookup, unwrap_or,
  get_balance, set_balance, increase_balance, decrease_balance, increase_base_balance,
  decrease_base_balance, mark_selfdestruct, unmark_selfdestruct, unmark_touch, unmark_created,
  keccak_empty, base_token_id,
}
use sabvm.State.Balances.{get_balance-set_balance}
use sabvm.Journal.{World, modify_account, on_info, restore_slot, ◌then_world◌}
use sabvm.Journal.View.{
  WorldView, mask, account_view, view, map_option, modify_view, modify_account-view,
}
use sabvm.Journal.Restore.Meaning.{
  set_balance_view, increase_view, decrease_view, set_touched, set_destroyed, ◌then_view◌,
  restore_slot_view,
}

pub set_balance-view :
    (address : Address) (t b : U256) (acc : Account)
    → account_view address (on_info (set_balance t b) acc)
      ≡ set_balance_view t b (account_view address acc)
unfolding account_view set_balance_view set_balance
set_balance-view address t b acc = λ i. record {
  balance = λ u. get_balance-set_balance t u b acc.info i;
  nonce = acc.info.nonce;
  code_hash = acc.info.code_hash;
  storage = acc.storage;
  status = mask address acc.status;
}

pub increase-view :
    (address : Address) (t amount : U256) (acc : Account)
    → account_view address (on_info (increase_balance t amount) acc)
      ≡ increase_view t amount (account_view address acc)
unfolding increase_balance increase_view account_view
increase-view address t amount acc =
    set_balance-view address t (wrapping_add (get_balance t acc.info) amount) acc

pub decrease-view :
    (address : Address) (t amount : U256) (acc : Account)
    → account_view address (on_info (decrease_balance t amount) acc)
      ≡ decrease_view t amount (account_view address acc)
unfolding decrease_balance decrease_view account_view
decrease-view address t amount acc =
    set_balance-view address t (wrapping_sub (get_balance t acc.info) amount) acc

pub decrease_base-view :
    (address : Address) (amount : U256) (acc : Account)
    → account_view address (on_info (decrease_base_balance amount) acc)
      ≡ decrease_view base_token_id amount (account_view address acc)
unfolding decrease_base_balance
decrease_base-view address amount acc = decrease-view address base_token_id amount acc

pub unmark_touch-view :
    (address : Address) (acc : Account)
    → account_view address (unmark_touch acc) ≡ set_touched false (account_view address acc)
unfolding account_view unmark_touch mask
unmark_touch-view address acc = refl

pub destroyed-view :
    (address : Address) (had : U256) (was_destroyed : Bool) (acc : Account)
    → account_view address (
        on_info
          (increase_base_balance had)
          (if was_destroyed then mark_selfdestruct acc else unmark_selfdestruct acc))
      ≡ increase_view base_token_id had (set_destroyed was_destroyed (account_view address acc))
unfolding increase_base_balance mark_selfdestruct unmark_selfdestruct account_view mask
destroyed-view address had true acc =
    increase-view address base_token_id had (mark_selfdestruct acc)
destroyed-view address had false acc =
    increase-view address base_token_id had (unmark_selfdestruct acc)

-- Two steps that are each implemented.
pub then_view-lem :
    (m : Option World) (n : Option WorldView) (f : World → Option World)
    (g : WorldView → Option WorldView)
    → map_option view m ≡ n
    → ((w : World) → map_option view (f w) ≡ g (view w))
    → map_option view (m then_world f) ≡ (n then_view g)
then_view-lem none n f g h k = rw (← h)
then_view-lem (some w) n f g h k = rw (← h) (k w)

pub view-remove :
    (address : Address) (w : World)
    → view
        (record w { state = record (w.state) { accounts = update w.state.accounts address none } })
      ≡ (let v = view w in record v { accounts = update v.accounts address none })
unfolding view
view-remove address w = λ i. record {
  accounts = λ j. removed j i;
  token_ids = w.state.token_ids;
  transient_storage = w.transient_storage;
}
  where
    removed :
        (j : Address)
        → map_option (account_view j) (update w.state.accounts address none j)
          ≡ update (λ k. map_option (account_view k) (w.state.accounts k)) address none j
    removed j = ground arith

pub on_storage-view :
    (f : EvmStorage → EvmStorage) (address : Address) (acc : Account)
    → account_view address (record acc { storage = f acc.storage })
      ≡ record (account_view address acc) { storage = f acc.storage }
unfolding account_view
on_storage-view f address acc = refl

-- A change of the other fields of the account's information.
pub on_info-view :
    (f : AccountInfo → AccountInfo) (address : Address) (acc : Account)
    → ((info : AccountInfo) → (f info).balances ≡ info.balances)
    → account_view address (on_info f acc) ≡ record (account_view address acc) {
      nonce = (f acc.info).nonce;
      code_hash = (f acc.info).code_hash;
    }
unfolding account_view get_balance
on_info-view f address acc h = λ i. record {
  balance = λ t. unwrap_or 0 (lookup t (h acc.info i));
  nonce = (f acc.info).nonce;
  code_hash = (f acc.info).code_hash;
  storage = acc.storage;
  status = mask address acc.status;
}

pub nonce-view :
    (address : Address) (acc : Account)
    → account_view address
        (on_info (λ info. record info { nonce = (info.nonce + u64_mod - 1) % u64_mod }) acc)
      ≡ (let v = account_view address acc in record v { nonce = (v.nonce + u64_mod - 1) % u64_mod })
unfolding account_view
nonce-view address acc =
    on_info-view (λ info. record info { nonce = (info.nonce + u64_mod - 1) % u64_mod }) address acc
      (λ info. refl)

pub uncreated-view :
    (address : Address) (acc : Account)
    → account_view address (on_info (λ info. record info { nonce = 0 }) (unmark_created acc)) ≡ (
        let v = account_view address acc in
        record v { status = record (v.status) { created = false }; nonce = 0 })
unfolding account_view unmark_created mask
uncreated-view address acc =
    on_info-view (λ info. record info { nonce = 0 }) address (unmark_created acc) (λ info. refl)

pub no_code-view :
    (address : Address) (acc : Account)
    → account_view address
        (on_info (λ info. record info { code_hash = keccak_empty; code = none }) acc)
      ≡ record (account_view address acc) { code_hash = keccak_empty }
unfolding account_view
no_code-view address acc =
    on_info-view (λ info. record info { code_hash = keccak_empty; code = none }) address acc
      (λ info. refl)

pub if-view :
    (b : Bool) (m n : Option World) (m' n' : Option WorldView)
    → map_option view m ≡ m'
    → map_option view n ≡ n'
    → map_option view (if b then m else n) ≡ (if b then m' else n')
if-view true m n m' n' h k = h
if-view false m n m' n' h k = k

abbrev pub write_slot : U256 → EvmStorageSlot → U256 → EvmStorage → EvmStorage
write_slot key slot had storage = update storage key (some (record slot { present_value = had }))

module _ (address : Address) (key had : U256) (w : World) (acc : Account) (slot : EvmStorageSlot)
    (e : w.state.accounts address ≡ some acc) (e' : acc.storage key ≡ some slot) where
  restore_slot-some :
      restore_slot address key (some had) w
      ≡ modify_account address (λ a. record a { storage = write_slot key slot had a.storage }) w
  unfolding restore_slot
  restore_slot-some = rw (e, restore_slot) (rw e')

  restore_slot_view-some :
      restore_slot_view address key (some had) (view w)
      ≡ modify_view address (λ a. record a { storage = write_slot key slot had a.storage }) (view w)
  unfolding restore_slot_view view account_view
  restore_slot_view-some = rw (e, restore_slot_view) (rw e')

pub restore_slot-view :
    (address : Address) (key : U256) (had : Option U256) (w : World)
    → map_option view (restore_slot address key had w) ≡ restore_slot_view address key had (view w)
unfolding restore_slot restore_slot_view account_view
restore_slot-view address key none w =
    modify_account-view address _ _ w (on_storage-view (λ st. update st key none) address)
restore_slot-view address key (some had) w = elim (Option-cases (w.state.accounts address)) [
  | inl missing ↦ unfold view in rw (missing, restore_slot, restore_slot_view)
  | inr (acc, e) ↦ elim (Option-cases (acc.storage key)) [
    | inl vacant ↦ unfold view account_view in rw (e, restore_slot, restore_slot_view) (rw vacant)
    | inr (slot, e') ↦
        ap (map_option view) (restore_slot-some address key had w acc slot e e')
        ∙ modify_account-view address _ _ w (on_storage-view (write_slot key slot had) address)
        ∙ sym (restore_slot_view-some address key had w acc slot e e')
  ]
]

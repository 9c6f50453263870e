-- ===== src/Journal/View.antt =====
-- What the journal promises to restore: the abstract view of a world, in which an account has a
-- balance for every token, whether or not its map holds the token. The touched flag of precompile 3
-- is left out, since `journal_revert` keeps it from Spurious Dragon on; so is the cached code, which
-- the code hash names.
use sabvm.Prelude.{
  ℕ, not, ◌&&◌, List, Option, none, some, ◌≡◌, ap, ◌∙◌, ◌==◌, arith, Option-cases, inl, inr,
}
use sabvm.State.{
  Address, U256, Account, AccountStatus, EvmStorage, TransientStorage, update, get_balance,
  precompile3,
}
use sabvm.Journal.{World, modify_account}

pub record AccountView : Type 0 where
  pub balance : U256 → U256
  pub nonce : ℕ
  pub code_hash : U256
  pub storage : EvmStorage
  pub status : AccountStatus

pub record WorldView : Type 0 where
  pub accounts : Address → Option AccountView
  pub token_ids : List U256
  pub transient_storage : TransientStorage

unfoldable pub mask : Address → AccountStatus → AccountStatus
mask address status = record status { touched = status.touched && not (address == precompile3) }

unfoldable pub account_view : Address → Account → AccountView
account_view address acc = record {
  balance = λ token_id. get_balance token_id acc.info;
  nonce = acc.info.nonce;
  code_hash = acc.info.code_hash;
  storage = acc.storage;
  status = mask address acc.status;
}

abbrev pub map_option : {A B : Type 0} → (A → B) → Option A → Option B
map_option f none = none
map_option f (some a) = some (f a)

unfoldable pub view : World → WorldView
view w = record {
  accounts = λ address. map_option (account_view address) (w.state.accounts address);
  token_ids = w.state.token_ids;
  transient_storage = w.transient_storage;
}

unfoldable pub put_view : Address → AccountView → WorldView → WorldView
put_view address acc v = record v { accounts = update v.accounts address (some acc) }

-- A change of the account at an address, if it is there.
unfoldable pub modify_view : Address → (AccountView → AccountView) → WorldView → Option WorldView
modify_view address f v = elim (v.accounts address) [
  | none ↦ none
  | some acc ↦ some (put_view address (f acc) v)
]

map_update :
    (f : Address → Option Account) (address : Address) (acc : Account) (j : Address)
    → map_option (account_view j) (update f address (some acc) j)
      ≡ update (λ k. map_option (account_view k) (f k)) address (some (account_view address acc)) j
map_update f address acc j = ground arith

abbrev pub put_world : Address → Account → World → World
put_world address acc w = record w {
  state = record (w.state) { accounts = update w.state.accounts address (some acc) };
}

pub view-put_world :
    (address : Address) (acc : Account) (w : World)
    → view (put_world address acc w) ≡ put_view address (account_view address acc) (view w)
unfolding view put_view
view-put_world address acc w = λ i. record {
  accounts = λ j. map_update w.state.accounts address acc j i;
  token_ids = w.state.token_ids;
  transient_storage = w.transient_storage;
}

module _ (address : Address) (f : Account → Account) (g : AccountView → AccountView) where
  pub modify_account-view :
      (w : World)
      → ((acc : Account) → account_view address (f acc) ≡ g (account_view address acc))
      → map_option view (modify_account address f w) ≡ modify_view address g (view w)
  unfolding modify_account modify_view view
  modify_account-view w h = elim (Option-cases (w.state.accounts address)) [
    | inl missing ↦ rw (missing, modify_account, modify_view)
    | inr (acc, e) ↦
        rw (e, modify_account, modify_view)
          (ap some
            (view-put_world address (f acc) w ∙ ap (λ a. put_view address a (view w)) (h acc)))
  ]

pub accounts-view :
    (address : Address) (acc : Account) (w : World)
    → w.state.accounts address ≡ some acc
    → (view w).accounts address ≡ some (account_view address acc)
unfolding view
accounts-view address acc w e = rw e

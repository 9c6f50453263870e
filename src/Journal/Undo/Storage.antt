-- ===== src/Journal/Undo/Storage.antt =====
-- The proofs about undoing `sload`, `sstore` and `log`.
use sabvm.Prelude.{
  Bool, true, false, [], ◌∷◌, Option, none, some, ◌≡◌, refl, ap, sym, subst, ◌∙◌, ◌==◌,
  if◌then◌else◌, arith, Bool-cases, inl, inr, ==_refl, some_inj,
}
use sabvm.State.{Address, U256, Account, EvmStorage, EvmStorageSlot, update, get_balance, new_slot}
use sabvm.Journal.{
  ◌>>◌, JournalEntry, storage_change, JournaledState, Run, world, M, ◌>>=◌, pure, push_entry,
  put_account, set_accounts, Database, DbResult, query, sload, SStoreResult, sstore, get_slot,
  set_slot, log, Log,
}
use sabvm.Journal.View.{
  AccountView, WorldView, account_view, view, put_view, modify_view, accounts-view,
}
use sabvm.Journal.Restore.{journal_revert_view, revert_view, restore_slot_view}
use sabvm.Journal.Algebra.{modify_view_back, accounts-put_view_self}
use sabvm.Journal.Undo.{
  Undoes, Undoes-trans, Undoes-refl, Fits, Fits-put_view, dragon, view_of, Post, returns, fails,
  panics, revert_one,
}
use sabvm.Journal.Undo.Touch.{
  Changes, Changes-Undoes, put_account-Changes, put_account-view, Post-bind, get_account-Post,
  push_entry-Post,
}
use sabvm.Journal.Undo.Accounts.{Kept, query-Post}

abbrev with_storage : EvmStorage → AccountView → AccountView
with_storage st x = record x { storage = st }

-- A write to the storage of an account, after the entry that takes it back.
storage_Undoes :
    (a : Address) (acc : Account) (st : EvmStorage) (entry : JournalEntry) (s s1 : JournaledState)
    → Fits (view_of s)
    → s.state.accounts a ≡ some acc
    → Changes s (entry ∷ []) s1
    → world s1 ≡ world s
    → revert_view (dragon s) entry (put_view a (with_storage st (account_view a acc)) (view_of s))
      ≡ some (view_of s)
    → Undoes s (set_accounts (update s1.state.accounts a (some (record acc { storage = st }))) s1)
storage_Undoes a acc st entry s s1 h e c same back =
    Changes-Undoes (entry ∷ []) (put_account-Changes a _ (entry ∷ []) c)
      (revert_one (dragon s) entry _ _ (rw seen back))
      (rw seen (
        Fits-put_view a _ (view_of s) h (h.balances a (account_view a acc) found)
          (h.nonces a (account_view a acc) found)))
  where
    found : (view_of s).accounts a ≡ some (account_view a acc)
    found = accounts-view a acc (world s) e

    shape : account_view a (record acc { storage = st }) ≡ with_storage st (account_view a acc)
    shape = unfold account_view get_balance in refl

    seen :
        view_of (set_accounts (update s1.state.accounts a (some (record acc { storage = st }))) s1)
        ≡ put_view a (with_storage st (account_view a acc)) (view_of s)
    seen =
        put_account-view a (record acc { storage = st }) s1
        ∙ ap (λ x. put_view a x (view_of s1)) shape
        ∙ ap (λ w. put_view a (with_storage st (account_view a acc)) (view w)) same

update_back :
    (st : EvmStorage) (key : U256) (o p : Option EvmStorageSlot) (j : U256)
    → st key ≡ o
    → update (update st key p) key o j ≡ st j
update_back st key o p j h = ground (arith, h)

-- Taking back the load of a slot.
load_back :
    (d : Bool) (a : Address) (acc : Account) (key : U256) (slot : EvmStorageSlot) (v : WorldView)
    → v.accounts a ≡ some (account_view a acc)
    → acc.storage key ≡ none
    → revert_view d
        (storage_change a key none)
        (put_view a (with_storage (update acc.storage key (some slot)) (account_view a acc)) v)
      ≡ some v
unfolding revert_view restore_slot_view account_view
load_back d a acc key slot v h vacant =
    modify_view_back a (λ x. with_storage (update x.storage key none) x) (account_view a acc) _ v h
      (λ i.
        with_storage (λ j. update_back acc.storage key none (some slot) j vacant i)
          (account_view a acc))

restore_present :
    (a : Address) (key had : U256) (x : AccountView) (slot : EvmStorageSlot) (v : WorldView)
    → v.accounts a ≡ some x
    → x.storage key ≡ some slot
    → restore_slot_view a key (some had) v
      ≡ modify_view a
          (λ y. with_storage (update y.storage key (some (record slot { present_value = had }))) y)
          v
unfolding restore_slot_view
restore_present a key had x slot v h k = rw (h, restore_slot_view) (rw k)

-- Taking back a write to a slot.
write_back :
    (d : Bool) (a : Address) (acc : Account) (key new : U256) (slot : EvmStorageSlot)
    (v : WorldView)
    → v.accounts a ≡ some (account_view a acc)
    → acc.storage key ≡ some slot
    → revert_view d (storage_change a key (some slot.present_value)) (
        put_view a
          (with_storage
            (update acc.storage key (some (record slot { present_value = new })))
            (account_view a acc))
          v)
      ≡ some v
write_back d a acc key new slot v h found =
    unfold revert_view in
    restore_present a key slot.present_value written (record slot { present_value = new })
      (put_view a written v) (accounts-put_view_self a written v) (rw ==_refl)
    ∙ modify_view_back a (λ x. with_storage (update x.storage key (some slot)) x)
        (account_view a acc) written v h same
  where
    written : AccountView
    written =
        with_storage (update acc.storage key (some (record slot { present_value = new })))
          (account_view a acc)

    same :
        with_storage
          (update
            (update acc.storage key (some (record slot { present_value = new })))
            key
            (some slot))
          (account_view a acc)
        ≡ account_view a acc
    same =
        unfold account_view in
        λ i.
          with_storage
            (λ j.
              update_back acc.storage key (some slot) (some (record slot { present_value = new })) j
                found i)
            (account_view a acc)

-- The slot is in the state after `sload`, with the value that it gave.
pub record HasSlot (a : Address) (key present : U256) (s : JournaledState) : Type 0 where
  pub acc : Account
  pub slot : EvmStorageSlot
  pub there : s.state.accounts a ≡ some acc
  pub stored : acc.storage key ≡ some slot
  pub present_is : slot.present_value ≡ present

abbrev pub SlotLoaded : Address → U256 → JournaledState → Run (U256 × Bool) → Type 0
SlotLoaded a key s = Post (λ r s'. Undoes s s' × HasSlot a key r.0 s') (λ s'. Undoes s s')

fetch-Post :
    {A B : Type 0} {R : B → JournaledState → Type 0} {E : JournaledState → Type 0} (b : Bool)
    (x : A) (r : DbResult A) (f : A → M B) (s : JournaledState)
    → E s
    → ((y : A) → Post R E (f y s))
    → Post R E (((if b then pure x else query r) >>= f) s)
fetch-Post true x r f s e h = h x
fetch-Post false x r f s e h = query-Post r f s e λ y _. h y

pub sload-SlotLoaded :
    (db : Database) (a : Address) (key : U256) (s : JournaledState)
    → Fits (view_of s)
    → SlotLoaded a key s (sload db a key s)
unfolding sload
sload-SlotLoaded db a key s h = get_account-Post a _ s λ acc e. go acc e (acc.storage key) refl
  where
    vacant : Account → M (U256 × Bool)
    vacant acc = do
      fetched ← if acc.status.created then pure 0 else query (db.storage a key)
      push_entry (storage_change a key none)
      put_account a (set_slot acc key (new_slot fetched))
      pure (fetched, true)

    choose : Account → Option EvmStorageSlot → M (U256 × Bool)
    choose acc o = elim o [ some slot ↦ pure (slot.present_value, false) | none ↦ vacant acc ]

    go :
        (acc : Account)
        → s.state.accounts a ≡ some acc
        → (o : Option EvmStorageSlot) → acc.storage key ≡ o
        → SlotLoaded a key s (choose acc o s)
    go acc e (some slot) k = returns (
      Undoes-refl s h,
      record { acc = acc; slot = slot; there = e; stored = k; present_is = refl },
    )
    go acc e none k =
        fetch-Post acc.status.created 0 (db.storage a key) _ s (Undoes-refl s h) λ fetched.
          push_entry-Post (storage_change a key none) _ s λ s1 c same. returns (
            storage_Undoes a acc (update acc.storage key (some (new_slot fetched)))
                (storage_change a key none) s s1 h e c same
                (load_back (dragon s) a acc key (new_slot fetched) (view_of s)
                  (accounts-view a acc (world s) e) k),
            record {
              acc = set_slot acc key (new_slot fetched);
              slot = new_slot fetched;
              there = rw ==_refl;
              stored = rw ==_refl;
              present_is = refl;
            },
          )

pub get_slot-Post :
    {B : Type 0} {R : B → JournaledState → Type 0} {E : JournaledState → Type 0} (acc : Account)
    (key : U256) (slot : EvmStorageSlot) (f : EvmStorageSlot → M B) (s : JournaledState)
    → acc.storage key ≡ some slot
    → Post R E (f slot s)
    → Post R E ((get_slot acc key >>= f) s)
get_slot-Post acc key slot f s e h = rw (e, get_slot) h

-- A read of a slot of an account, an error of the database included, is undone by its entry.
pub sload-Kept :
    (db : Database) (a : Address) (key : U256) (s : JournaledState)
    → Fits (view_of s)
    → Kept s (sload db a key s)
sload-Kept db a key s h = go (sload-SlotLoaded db a key s h)
  where
    go : {r : Run (U256 × Bool)} → SlotLoaded a key s r → Kept s r
    go (returns (u, _)) = returns u
    go (fails u) = fails u
    go panics = panics

-- From a state whose numbers are in range, an `sstore` that returns or ends in an error of the
-- database is undone by its entries, those of the read before it included.
pub sstore-Kept :
    (db : Database) (a : Address) (key new : U256) (s : JournaledState)
    → Fits (view_of s)
    → Kept s (sstore db a key new s)
unfolding sstore
sstore-Kept db a key new s h =
    Post-bind _ (sload-SlotLoaded db a key s h) λ (present, cold) s1 (u, has).
      get_account-Post a _ s1 λ acc e.
        get_slot-Post acc key has.slot _ s1
          (ap (λ x. x.storage key) (some_inj (sym e ∙ has.there)) ∙ has.stored)
          (store present cold s1 u has acc e)
  where
    back :
        (present : U256) (s1 : JournaledState) (has : HasSlot a key present s1) (acc : Account)
        → s1.state.accounts a ≡ some acc
        → revert_view (dragon s1) (storage_change a key (some present)) (
            put_view a
              (with_storage
                (update acc.storage key (some (record (has.slot) { present_value = new })))
                (account_view a acc))
              (view_of s1))
          ≡ some (view_of s1)
    back present s1 has acc e =
        subst
          (λ p.
            revert_view (dragon s1) (storage_change a key (some p)) (
              put_view a
                (with_storage
                  (update acc.storage key (some (record (has.slot) { present_value = new })))
                  (account_view a acc))
                (view_of s1))
            ≡ some (view_of s1))
          has.present_is
          (write_back (dragon s1) a acc key new has.slot (view_of s1)
            (accounts-view a acc (world s1) e)
            (ap (λ x. x.storage key) (some_inj (sym e ∙ has.there)) ∙ has.stored))

    store :
        (present : U256) (cold : Bool) (s1 : JournaledState) (u : Undoes s s1)
        (has : HasSlot a key present s1) (acc : Account)
        → s1.state.accounts a ≡ some acc
        → let result : SStoreResult = record {
          original_value = has.slot.original_value;
          present_value = present;
          new_value = new;
          is_cold = cold;
        } in
          Kept s (
            (if present == new then pure result else (do
              push_entry (storage_change a key (some present))
              put_account a (set_slot acc key (record (has.slot) { present_value = new }))
              pure result))
              s1)
    store present cold s1 u has acc e = elim (Bool-cases (present == new)) [
      | inl same ↦ rw same (returns u)
      | inr changes ↦ rw changes (
          push_entry-Post (storage_change a key (some present)) _ s1 λ s2 c same. returns (
            Undoes-trans u (
              storage_Undoes a acc _ (storage_change a key (some present)) s1 s2 u.fits e c same
                (back present s1 has acc e))))
    ]

pub log-Kept : (l : Log) (s : JournaledState) → Fits (view_of s) → Kept s (log l s)
unfolding log journal_revert_view
log-Kept l s h = returns (record {
  parts = [];
  entries = [];
  new_logs = l ∷ [];
  journal_is = λ last rest e. e;
  restores = refl;
  logs_is = refl;
  depth_is = refl;
  spec_is = refl;
  fits = h;
})

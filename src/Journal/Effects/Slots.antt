-- ===== src/Journal/Effects/Slots.antt =====
-- Proofs about a read of a slot after a write: `sload` after `sstore`, `tload` after `tstore`.
use sabvm.Prelude.{
  ℕ, ⊤, Bool, true, false, ◌&&◌, Option, none, some, ◌≡◌, ap, sym, ◌∙◌, ◌==◌, if◌then◌else◌, arith,
  Bool-cases, inl, inr, some_inj, ==_refl,
}
use sabvm.State.{U256, Account, EvmStorageSlot, TransientStorage, unwrap_or}
use sabvm.Journal.{
  ◌>>◌, storage_change, transient_storage_change, JournaledState, Run, done, M, ◌>>=◌, pure,
  get_account, push_entry, Database, sload, sstore, get_slot, set_slot, SStoreResult, set_transient,
  had_value, tload, tstore, put_account,
}
use sabvm.Journal.Undo.{Fits, view_of, Post, returns}
use sabvm.Journal.Undo.Touch.{
  Post-bind, Post-weaken, get_account-Post, push_entry-Post, push_last-Post,
}
use sabvm.Journal.Undo.Storage.{HasSlot, sload-SlotLoaded, get_slot-Post}

-- A slot that is in the state is read from it, and is warm.
sload_present :
    (db : Database) (a key : ℕ) (s : JournaledState) (acc : Account) (slot : EvmStorageSlot)
    → s.state.accounts a ≡ some acc
    → acc.storage key ≡ some slot
    → sload db a key s ≡ done (slot.present_value, false) s
unfolding sload
sload_present db a key s acc slot e k = rw (e, get_account) (rw k)

-- After an `sstore` that returns, `sload` of the slot gives the new value, reads it as warm and
-- leaves the state as it is. The numbers of the state before are in range.
pub sload-sstore :
    (db : Database) (a key new : ℕ) (s : JournaledState)
    → Fits (view_of s)
    → Post (λ _ s'. sload db a key s' ≡ done (new, false) s') (λ _. ⊤) (sstore db a key new s)
unfolding sstore
sload-sstore db a key new s h =
    Post-bind _ (Post-weaken (λ _ _ q. q) (λ _ _. tt) (sload-SlotLoaded db a key s h))
      λ (present, cold) s1 (_, has).
        get_account-Post a _ s1
          λ acc e. store present cold s1 has acc e (stored present s1 has acc e)
  where
    Reads : Run SStoreResult → Type 0
    Reads = Post (λ _ s'. sload db a key s' ≡ done (new, false) s') (λ _. ⊤)

    equal : (present : U256) → (present == new) ≡ true → present ≡ new
    equal present h = ground (arith, h)

    stored :
        (present : U256) (s1 : JournaledState) (has : HasSlot a key present s1) (acc : Account)
        → s1.state.accounts a ≡ some acc
        → acc.storage key ≡ some has.slot
    stored present s1 has acc e =
        ap (λ x. x.storage key) (some_inj (sym e ∙ has.there)) ∙ has.stored

    store :
        (present : U256) (cold : Bool) (s1 : JournaledState) (has : HasSlot a key present s1)
        (acc : Account)
        → s1.state.accounts a ≡ some acc
        → acc.storage key ≡ some has.slot
        → Reads (
            (get_slot acc key >>= λ slot.
            let result : SStoreResult = record {
              original_value = slot.original_value;
              present_value = present;
              new_value = new;
              is_cold = cold;
            } in
            let write : M SStoreResult = do
              push_entry (storage_change a key (some present))
              put_account a (set_slot acc key (record slot { present_value = new }))
              pure result
            in if present == new then pure result else write)
              s1)
    store present cold s1 has acc e k =
        get_slot-Post acc key has.slot _ s1 k (elim (Bool-cases (present == new)) [
          | inl same ↦ rw same (
              returns (
                sload_present db a key s1 acc has.slot e k
                ∙ ap (λ v. done (v, false) s1) (has.present_is ∙ equal present same)))
          | inr changes ↦ rw changes (
              push_entry-Post (storage_change a key (some present)) _ s1 λ s2 _ _. returns (
                sload_present db a key _
                  (set_slot acc key (record (has.slot) { present_value = new }))
                  (record (has.slot) { present_value = new }) (rw ==_refl) (rw ==_refl)))
        ])

-- After a `tstore` that returns, `tload` gives the new value for the slot, and for every other
-- slot what it gave before, and leaves the state as it is.
pub tload-tstore :
    (a key new b l : ℕ) (s : JournaledState)
    → Post
        (λ _ s'.
          tload b l s'
          ≡ done (if b == a && l == key then new else unwrap_or 0 (s.transient_storage b l)) s')
        (λ _. ⊤)
        (tstore a key new s)
unfolding tstore tload
tload-tstore a key new b l s = go (had_value (s.transient_storage a key) new)
  where
    t' : TransientStorage
    t' = set_transient a key (if new == 0 then none else some new) s.transient_storage

    read :
        unwrap_or 0 (t' b l)
        ≡ (if b == a && l == key then new else unwrap_or 0 (s.transient_storage b l))
    read = unfold set_transient in ground arith

    record_had : Option U256 → M ⊤
    record_had o = elim o [
      | none ↦ pure tt
      | some had ↦ push_entry (transient_storage_change a key had)
    ]

    s1 : JournaledState
    s1 = record s { transient_storage = t' }

    go :
        (o : Option U256)
        → Post
            (λ _ s'.
              done (unwrap_or 0 (s'.transient_storage b l)) s'
              ≡ done (if b == a && l == key then new else unwrap_or 0 (s.transient_storage b l)) s')
            (λ _. ⊤)
            (record_had o s1)
    go none = returns (ap (λ v. done v s1) read)
    go (some had) = push_last-Post (transient_storage_change a key had) s1 λ s2 _ same.
        ap (λ v. done v s2) (ap (λ w. unwrap_or 0 (w.transient_storage b l)) same ∙ read)

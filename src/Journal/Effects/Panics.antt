-- ===== src/Journal/Effects/Panics.antt =====
-- Proofs about the unwraps of the methods, on a journal that has a part.
use sabvm.Prelude.{
  ⊤, Bool, true, false, not, List, [], ◌∷◌, Option, none, some, ◌≡◌, ◌≢◌, refl, if◌then◌else◌,
  arith, checked_add, checked_sub, u256_mod, ==_refl,
}
use sabvm.State.{Address, U256, Account, is_some, get_balance, mark_touch, AccountInfo}
use sabvm.Journal.{
  JournalEntry, JournaledState, Run, done, db_error, panic, M, ◌>>=◌, ◌>>◌, then_run, pure,
  get_account, put_account, push_entry, last_journal, query, Database, DbResult, value, failed,
  account_touched, account_loaded, touch_account, load_account, loaded_account,
  load_native_token_ids, set_token_ids, token_ids_loaded, debit, credit, with_balance,
}

abbrev pub has_part : JournaledState → Bool
has_part s = elim s.journal [ [] ↦ false | _ ∷ _ ↦ true ]

abbrev pub is_loaded : Address → JournaledState → Bool
is_loaded a s = is_some (s.state.accounts a)

-- The journal keeps a part, and what is loaded stays loaded.
pub record Steps (s s' : JournaledState) : Type 0 where
  pub part_kept : has_part s ≡ true → has_part s' ≡ true
  pub loaded_kept : (a : Address) → is_loaded a s ≡ true → is_loaded a s' ≡ true

-- A run that ends in a value or in an error of the database.
pub data Ends {A : Type 0} (Q : A → JournaledState → Type 0) (s : JournaledState)
    : Run A → Type 0 where
  returned : {a : A} {s' : JournaledState} → Steps s s' → Q a s' → Ends Q s (done a s')
  errored : {s' : JournaledState} → Steps s s' → Ends Q s (db_error s')

-- It does not panic.
pub Ends-total :
    {A : Type 0} {Q : A → JournaledState → Type 0} {s : JournaledState} {r : Run A}
    → Ends Q s r
    → r ≢ panic
Ends-total (returned st q) e = ground (arith, e)
Ends-total (errored st) e = ground (arith, e)

pub Steps-refl : (s : JournaledState) → Steps s s
Steps-refl s = record { part_kept = λ h. h; loaded_kept = λ a h. h }

pub Steps-trans : {s t u : JournaledState} → Steps s t → Steps t u → Steps s u
Steps-trans x y = record {
  part_kept = λ h. y.part_kept (x.part_kept h);
  loaded_kept = λ a h. y.loaded_kept a (x.loaded_kept a h);
}

abbrev pub Any : {A : Type 0} → A → JournaledState → Type 0
Any a s = ⊤

module _ {A B : Type 0} {Q : A → JournaledState → Type 0} {R : B → JournaledState → Type 0} where
  pub Ends-bind :
      {s : JournaledState} {r : Run A} (f : A → M B)
      → Ends Q s r
      → ((a : A) (t : JournaledState) → Steps s t → Q a t → Ends R t (f a t))
      → Ends R s (then_run r f)
  Ends-bind f (returned st q) k = after st (k _ _ st q)
    where
      after : {s t : JournaledState} {r : Run B} → Steps s t → Ends R t r → Ends R s r
      after st (returned st' q') = returned (Steps-trans st st') q'
      after st (errored st') = errored (Steps-trans st st')
  Ends-bind f (errored st) k = errored st

pub get_account-Ends :
    (a : Address) (s : JournaledState) → is_loaded a s ≡ true → Ends Any s (get_account a s)
get_account-Ends a s h = go (s.state.accounts a) h
  where
    go :
        (o : Option Account)
        → is_some o ≡ true
        → Ends Any s (elim o [ none ↦ panic | some acc ↦ done acc s ])
    go none e = ground (arith, e)
    go (some acc) e = returned (Steps-refl s) tt

pub put_account-Ends :
    (a : Address) (acc : Account) (s : JournaledState)
    → Ends (λ _ t. is_loaded a t ≡ true) s (put_account a acc s)
put_account-Ends a acc s =
    returned (record { part_kept = λ h. h; loaded_kept = λ b h. ground (arith, h) }) (rw ==_refl)

pub push_entry-Ends :
    (e : JournalEntry) (s : JournaledState) → has_part s ≡ true → Ends Any s (push_entry e s)
push_entry-Ends e s h = go s.journal refl h
  where
    go :
        (j : List (List JournalEntry))
        → s.journal ≡ j
        → elim j [ [] ↦ false | _ ∷ _ ↦ true ] ≡ true
        → Ends Any s (elim j [
          | [] ↦ panic
          | last ∷ rest ↦ done tt (record s { journal = (e ∷ last) ∷ rest })
        ])
    go [] eq h = ground (arith, h)
    go (last ∷ rest) eq h = returned (record { part_kept = λ _. refl; loaded_kept = λ a k. k }) tt

pub last_journal-Ends : (s : JournaledState) → has_part s ≡ true → Ends Any s (last_journal s)
last_journal-Ends s h = go s.journal h
  where
    go :
        (j : List (List JournalEntry))
        → elim j [ [] ↦ false | _ ∷ _ ↦ true ] ≡ true
        → Ends Any s (elim j [ [] ↦ panic | _ ∷ _ ↦ done tt s ])
    go [] h = ground (arith, h)
    go (last ∷ rest) h = returned (Steps-refl s) tt

pub touch_account-Ends :
    (a : Address) (acc : Account) (s : JournaledState)
    → has_part s ≡ true
    → Ends Any s (touch_account a acc s)
unfolding touch_account
touch_account-Ends a acc s h =
    Ends-bind _ (last_journal-Ends s h) λ _ t st _. go acc.status.touched t (st.part_kept h)
  where
    go :
        (b : Bool) (t : JournaledState)
        → has_part t ≡ true
        → Ends Any t (
            (if b then pure acc else (do
              push_entry (account_touched a)
              put_account a (mark_touch acc)
              pure (mark_touch acc)))
              t)
    go true t h = returned (Steps-refl t) tt
    go false t h =
        Ends-bind (λ _. put_account a (mark_touch acc) >> pure (mark_touch acc))
          (push_entry-Ends (account_touched a) t h)
          λ _ u _ _.
            Ends-bind (λ _. pure (mark_touch acc)) (put_account-Ends a (mark_touch acc) u)
              λ _ v _ _. returned (Steps-refl v) tt

pub load_account-Ends :
    (db : Database) (a : Address) (s : JournaledState)
    → has_part s ≡ true
    → Ends (λ _ t. is_loaded a t ≡ true) s (load_account db a s)
unfolding load_account
load_account-Ends db a s h = go (s.state.accounts a) refl
  where
    load : M (Account × Bool)
    load = do
      basic ← query (db.basic a)
      push_entry (account_loaded a)
      put_account a (loaded_account basic)
      pure (loaded_account basic, not (s.warm_preloaded_addresses a))

    Inserted : Run (Account × Bool) → Type 0
    Inserted = Ends (λ _ t. is_loaded a t ≡ true) s

    rest : Option AccountInfo → M (Account × Bool)
    rest basic = do
      push_entry (account_loaded a)
      put_account a (loaded_account basic)
      pure (loaded_account basic, not (s.warm_preloaded_addresses a))

    insert : (r : DbResult (Option AccountInfo)) → Inserted ((query r >>= rest) s)
    insert failed = errored (Steps-refl s)
    insert (value basic) =
        Ends-bind
          (λ _.
            put_account a (loaded_account basic)
            >> pure (loaded_account basic, not (s.warm_preloaded_addresses a)))
          (push_entry-Ends (account_loaded a) s h)
          λ _ t _ _.
            Ends-bind (λ _. pure (loaded_account basic, not (s.warm_preloaded_addresses a)))
              (put_account-Ends a (loaded_account basic) t) λ _ u _ l. returned (Steps-refl u) l

    go :
        (o : Option Account)
        → s.state.accounts a ≡ o
        → Ends
            (λ _ t. is_loaded a t ≡ true)
            s
            (elim o [ some account ↦ done (account, false) s | none ↦ load s ])
    go (some acc) e = returned (Steps-refl s) (rw e)
    go none e = insert (db.basic a)

pub load_native_token_ids-Ends :
    (db : Database) (s : JournaledState)
    → has_part s ≡ true
    → Ends Any s (load_native_token_ids db s)
unfolding load_native_token_ids
load_native_token_ids-Ends db s h = go s.state.token_ids
  where
    rest : List U256 → M Bool
    rest ids = do set_token_ids ids; push_entry (token_ids_loaded ids); pure true

    load : (r : DbResult (List U256)) → Ends Any s ((query r >>= rest) s)
    load failed = errored (Steps-refl s)
    load (value ids) = after (
        Ends-bind (λ _. pure true)
          (push_entry-Ends (token_ids_loaded ids)
            (record s { state = record (s.state) { token_ids = ids } }) h)
          λ _ t _ _. returned (Steps-refl t) tt)
      where
        after :
            {r : Run Bool}
            → Ends Any (record s { state = record (s.state) { token_ids = ids } }) r
            → Ends Any s r
        after (returned st q) =
            returned (record { part_kept = st.part_kept; loaded_kept = st.loaded_kept }) q
        after (errored st) =
            errored (record { part_kept = st.part_kept; loaded_kept = st.loaded_kept })

    go :
        (ids : List U256)
        → Ends Any s (elim ids [ [] ↦ (query db.get_token_ids >>= rest) s | _ ∷ _ ↦ done false s ])
    go [] = load db.get_token_ids
    go (id ∷ ids) = returned (Steps-refl s) tt

pub debit-Ends :
    (a : Address) (t amount : U256) (s : JournaledState)
    → has_part s ≡ true
    → is_loaded a s ≡ true
    → Ends Any s (debit a t amount s)
unfolding debit
debit-Ends a t amount s h l = Ends-bind _ (get_account-Ends a s l) λ acc s1 st _.
    Ends-bind write (touch_account-Ends a acc s1 (st.part_kept h))
      λ acc' s2 _ _. go acc' (checked_sub (get_balance t acc'.info) amount) s2
  where
    write_to : Account → Option U256 → M Bool
    write_to acc o = elim o [
      | none ↦ pure false
      | some balance ↦ put_account a (with_balance acc t balance) >> pure true
    ]

    write : Account → M Bool
    write acc = write_to acc (checked_sub (get_balance t acc.info) amount)

    go : (acc : Account) (o : Option U256) (s2 : JournaledState) → Ends Any s2 (write_to acc o s2)
    go acc none s2 = returned (Steps-refl s2) tt
    go acc (some b) s2 =
        Ends-bind (λ _. pure true) (put_account-Ends a (with_balance acc t b) s2)
          λ _ u _ _. returned (Steps-refl u) tt

pub credit-Ends :
    (a : Address) (t amount : U256) (s : JournaledState)
    → has_part s ≡ true
    → is_loaded a s ≡ true
    → Ends Any s (credit a t amount s)
unfolding credit
credit-Ends a t amount s h l = Ends-bind _ (get_account-Ends a s l) λ acc s1 st _.
    Ends-bind write (touch_account-Ends a acc s1 (st.part_kept h))
      λ acc' s2 _ _. go acc' (checked_add u256_mod (get_balance t acc'.info) amount) s2
  where
    write_to : Account → Option U256 → M Bool
    write_to acc o = elim o [
      | none ↦ pure false
      | some balance ↦ put_account a (with_balance acc t balance) >> pure true
    ]

    write : Account → M Bool
    write acc = write_to acc (checked_add u256_mod (get_balance t acc.info) amount)

    go : (acc : Account) (o : Option U256) (s2 : JournaledState) → Ends Any s2 (write_to acc o s2)
    go acc none s2 = returned (Steps-refl s2) tt
    go acc (some b) s2 =
        Ends-bind (λ _. pure true) (put_account-Ends a (with_balance acc t b) s2)
          λ _ u _ _. returned (Steps-refl u) tt

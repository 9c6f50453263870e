-- ===== src/Journal/Undo/Touch.antt =====
-- Work within one part of the journal, and `touch_account` as such work.
use sabvm.Prelude.{
  ⊤, Bool, true, false, not, ◌&&◌, List, [], ◌∷◌, ◌++◌, Option, none, some, ◌≡◌, refl, ap, sym,
  subst, ◌∙◌, append_assoc, ◌==◌, if◌then◌else◌, arith, Bool-cases, inl, inr, ==_refl,
}
use sabvm.State.{Address, Account, update, mark_touch, precompile3}
use sabvm.Journal.{
  ◌>>◌, JournalEntry, account_touched, JournaledState, Run, done, db_error, panic, world, M, ◌>>=◌,
  then_run, pure, touch_account, set_accounts, get_account, put_account, push_entry, last_journal,
}
use sabvm.Journal.View.{
  AccountView, WorldView, account_view, mask, view, put_view, view-put_world, accounts-view,
}
use sabvm.Journal.Restore.{journal_revert_view, revert_view, ◌then_view◌, set_touched}
use sabvm.Journal.Algebra.{modify_view_back, put_view_same}
use sabvm.Journal.Undo.{Undoes, Fits, dragon, view_of, Post, returns, fails, panics}

-- Entries were pushed on the last part, and the logs, the depth and the spec stay.
pub record Changes (s : JournaledState) (entries : List JournalEntry) (s' : JournaledState)
    : Type 0 where
  pub journal_is :
      (last : List JournalEntry) (rest : List (List JournalEntry))
      → s.journal ≡ last ∷ rest
      → s'.journal ≡ (entries ++ last) ∷ rest
  pub logs_is : s'.logs ≡ s.logs
  pub depth_is : s'.depth ≡ s.depth
  pub spec_is : s'.spec ≡ s.spec

pub Changes-trans :
    {s t u : JournaledState} (es fs : List JournalEntry)
    → Changes s es t
    → Changes t fs u
    → Changes s (fs ++ es) u
Changes-trans es fs a b = record {
  journal_is =
      λ last rest e. simp append_assoc (b.journal_is (es ++ last) rest (a.journal_is last rest e));
  logs_is = b.logs_is ∙ a.logs_is;
  depth_is = b.depth_is ∙ a.depth_is;
  spec_is = b.spec_is ∙ a.spec_is;
}

pub Changes-Undoes :
    {s s' : JournaledState} (es : List JournalEntry)
    → Changes s es s'
    → journal_revert_view (dragon s) es (view_of s') ≡ some (view_of s)
    → Fits (view_of s')
    → Undoes s s'
Changes-Undoes es c h f = record {
  parts = [];
  entries = es;
  new_logs = [];
  journal_is = c.journal_is;
  restores = h;
  logs_is = c.logs_is;
  depth_is = c.depth_is;
  spec_is = c.spec_is;
  fits = f;
}

-- Weaker conditions.
pub Post-weaken :
    {A : Type 0} {Q R : A → JournaledState → Type 0} {E F : JournaledState → Type 0} {r : Run A}
    → ((a : A) (s : JournaledState) → Q a s → R a s)
    → ((s : JournaledState) → E s → F s)
    → Post Q E r
    → Post R F r
Post-weaken f g (returns h) = returns (f _ _ h)
Post-weaken f g (fails h) = fails (g _ h)
Post-weaken f g panics = panics

-- Rules for a run that begins with one of the basic steps.
module _ {B : Type 0} {R : B → JournaledState → Type 0} {E : JournaledState → Type 0} where
  pub Post-bind :
      {A : Type 0} {Q : A → JournaledState → Type 0} {r : Run A} (f : A → M B)
      → Post Q E r
      → ((a : A) (s : JournaledState) → Q a s → Post R E (f a s))
      → Post R E (then_run r f)
  Post-bind f (returns h) k = k _ _ h
  Post-bind f (fails h) k = fails h
  Post-bind f panics k = panics

  pub assoc-Post :
      {A C : Type 0} (r : Run C) (g : C → M A) (f : A → M B)
      → Post R E (then_run r (λ c s. then_run (g c s) f))
      → Post R E (then_run (then_run r g) f)
  assoc-Post (done c s) g f h = h
  assoc-Post (db_error s) g f h = h
  assoc-Post panic g f h = h

  pub get_account-Post :
      (a : Address) (f : Account → M B) (s : JournaledState)
      → ((acc : Account) → s.state.accounts a ≡ some acc → Post R E (f acc s))
      → Post R E ((get_account a >>= f) s)
  get_account-Post a f s h = go (s.state.accounts a) h
    where
      go :
          (o : Option Account)
          → ((acc : Account) → o ≡ some acc → Post R E (f acc s))
          → Post R E (then_run (elim o [ none ↦ panic | some acc ↦ done acc s ]) f)
      go none h = panics
      go (some acc) h = h acc refl

  pub push_entry-Post :
      (entry : JournalEntry) (f : ⊤ → M B) (s : JournaledState)
      → ((s' : JournaledState)
          → Changes s (entry ∷ []) s'
          → world s' ≡ world s
          → Post R E (f tt s'))
      → Post R E ((push_entry entry >>= f) s)
  push_entry-Post entry f s h = go s.journal refl
    where
      go :
          (j : List (List JournalEntry))
          → s.journal ≡ j
          → Post R E (
              then_run
                (elim j [
                  | [] ↦ panic
                  | last ∷ rest ↦ done tt (record s { journal = (entry ∷ last) ∷ rest })
                ])
                f)
      go [] e = panics
      go (last ∷ rest) e =
          h (record s { journal = (entry ∷ last) ∷ rest })
            (record { journal_is = λ l r e'. cc; logs_is = refl; depth_is = refl; spec_is = refl })
            refl

  pub last_journal-Post :
      (f : ⊤ → M B) (s : JournaledState) → Post R E (f tt s) → Post R E ((last_journal >>= f) s)
  last_journal-Post f s h = go s.journal
    where
      go :
          (j : List (List JournalEntry))
          → Post R E (then_run (elim j [ [] ↦ panic | _ ∷ _ ↦ done tt s ]) f)
      go [] = panics
      go (last ∷ rest) = h

-- The entry is what the run ends with.
pub push_last-Post :
    {Q : ⊤ → JournaledState → Type 0} {E : JournaledState → Type 0} (entry : JournalEntry)
    (s : JournaledState)
    → ((s' : JournaledState) → Changes s (entry ∷ []) s' → world s' ≡ world s → Q tt s')
    → Post Q E (push_entry entry s)
push_last-Post {Q} {E} entry s h = go s.journal refl
  where
    go :
        (j : List (List JournalEntry))
        → s.journal ≡ j
        → Post Q E (elim j [
          | [] ↦ panic
          | last ∷ rest ↦ done tt (record s { journal = (entry ∷ last) ∷ rest })
        ])
    go [] e = panics
    go (last ∷ rest) e = returns (
        h (record s { journal = (entry ∷ last) ∷ rest })
          (record { journal_is = λ l r e'. cc; logs_is = refl; depth_is = refl; spec_is = refl })
          refl)

abbrev pub touch_entries : Address → Account → List JournalEntry
touch_entries address acc = if acc.status.touched then [] else account_touched address ∷ []

pub mark_touch_same : (acc : Account) → acc.status.touched ≡ true → mark_touch acc ≡ acc
unfolding mark_touch
mark_touch_same acc h = λ i. record acc { status = record (acc.status) { touched = sym h i } }

pub Changes-refl : (s : JournaledState) → Changes s [] s
Changes-refl s = record { journal_is = λ l r e. e; logs_is = refl; depth_is = refl; spec_is = refl }

-- A write of an account, after work that left the world as it was.
pub put_account-Changes :
    (a : Address) (acc : Account) {s s' : JournaledState} (es : List JournalEntry)
    → Changes s es s'
    → Changes s es (set_accounts (update s'.state.accounts a (some acc)) s')
put_account-Changes a acc es c = record {
  journal_is = c.journal_is;
  logs_is = c.logs_is;
  depth_is = c.depth_is;
  spec_is = c.spec_is;
}

pub put_account-view :
    (a : Address) (acc : Account) (s : JournaledState)
    → view_of (set_accounts (update s.state.accounts a (some acc)) s)
      ≡ put_view a (account_view a acc) (view_of s)
put_account-view a acc s = view-put_world a acc (world s)

-- What follows `touch_account` sees the account marked, in its hand and in the state.
pub touch_account-Post :
    {B : Type 0} {R : B → JournaledState → Type 0} {E : JournaledState → Type 0} (a : Address)
    (acc : Account) (f : Account → M B) (s : JournaledState)
    → s.state.accounts a ≡ some acc
    → ((s' : JournaledState)
        → Changes s (touch_entries a acc) s'
        → s'.state.accounts a ≡ some (mark_touch acc)
        → view_of s' ≡ put_view a (account_view a (mark_touch acc)) (view_of s)
        → Post R E (f (mark_touch acc) s'))
    → Post R E ((touch_account a acc >>= f) s)
unfolding touch_account
touch_account-Post {B} {R} {E} a acc f s e h =
    assoc-Post (last_journal s) _ f (last_journal-Post _ s (go acc.status.touched refl))
  where
    go :
        (b : Bool)
        → acc.status.touched ≡ b
        → Post R E (
            then_run
              ((if b then pure acc else (do
                push_entry (account_touched a)
                put_account a (mark_touch acc)
                pure (mark_touch acc)))
                s)
              f)
    go true t =
        let same = mark_touch_same acc t in
        let found = e ∙ ap some (sym same) in
        subst (λ x. Post R E (f x s)) same
          (h s (rw t (Changes-refl s)) found
            (sym (put_view_same a _ (view_of s) (accounts-view a _ (world s) found))))
    go false t = assoc-Post (push_entry (account_touched a) s) _ f (
        push_entry-Post _ _ s λ s1 c same.
          h (set_accounts (update s1.state.accounts a (some (mark_touch acc))) s1)
            (rw t (put_account-Changes a (mark_touch acc) (account_touched a ∷ []) c)) (rw ==_refl)
            (put_account-view a (mark_touch acc) s1
              ∙ ap (λ w. put_view a (account_view a (mark_touch acc)) (view w)) same))

-- A view with another touched flag.
with_touched : Bool → AccountView → AccountView
with_touched b x = record x { status = record (x.status) { touched = b } }

marked-view :
    (a : Address) (acc : Account)
    → account_view a (mark_touch acc) ≡ with_touched (not (a == precompile3)) (account_view a acc)
unfolding account_view mark_touch mask with_touched
marked-view a acc = refl

with_touched_same :
    (b : Bool) (a : Address) (acc : Account)
    → (acc.status.touched && not (a == precompile3)) ≡ b
    → with_touched b (account_view a acc) ≡ account_view a acc
unfolding with_touched account_view mask
with_touched_same b a acc h =
    λ i. record (account_view a acc) { status = record (acc.status) { touched = sym h i } }

unmarked-view :
    (a : Address) (acc : Account)
    → acc.status.touched ≡ false
    → set_touched false (account_view a (mark_touch acc)) ≡ account_view a acc
unfolding with_touched
unmarked-view a acc t =
    ap (set_touched false) (marked-view a acc) ∙ with_touched_same false a acc (rw t)

-- Undoing the touch of an account that was not marked.
pub touch_entries_back :
    (d : Bool) (a : Address) (acc : Account) (v : WorldView)
    → v.accounts a ≡ some (account_view a acc)
    → journal_revert_view d (touch_entries a acc) (put_view a (account_view a (mark_touch acc)) v)
      ≡ some v
unfolding journal_revert_view revert_view
touch_entries_back d a acc v e = go acc.status.touched refl
  where
    v' : WorldView
    v' = put_view a (account_view a (mark_touch acc)) v

    go :
        (b : Bool)
        → acc.status.touched ≡ b
        → journal_revert_view d (if b then [] else account_touched a ∷ []) v' ≡ some v
    go true t =
        ap some (
          put_view_same a _ v (e ∙ ap (λ x. some (account_view a x)) (sym (mark_touch_same acc t))))
    go false t = elim (Bool-cases (d && a == precompile3)) [
      | inl kept ↦ rw kept (
          ap some (
            put_view_same a _ v
              (e ∙ ap some (sym (marked-view a acc ∙ with_touched_same _ a acc (ground arith))))))
      | inr unmarked ↦ rw unmarked (
          ap (λ o. o then_view some)
            (modify_view_back a (set_touched false) (account_view a acc) _ v e
              (unmarked-view a acc t)))
    ]

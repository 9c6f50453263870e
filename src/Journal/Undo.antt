-- ===== src/Journal/Undo.antt =====
-- What it means that the journal undoes a piece of work: from the state after it, the entries
-- that it pushed lead back to the view of the state before it.
pub mod Touch
pub mod Transfer
pub mod Tokens
pub mod Accounts
pub mod Storage
pub mod Work
pub mod Script
pub mod Actions
pub mod Reversible
pub mod Native
pub mod Transient
pub mod Code
pub mod Fill
pub mod Mint
pub mod Checkpoint
use sabvm.Prelude.{
  ◌<◌, Bool, List, [], ◌∷◌, ◌++◌, some, ◌≡◌, ◌≢◌, refl, ap, sym, subst, ◌∙◌, append_assoc, u256_mod,
  u64_mod, Option-cases, inl, inr, ==-cases, some_inj,
}
use sabvm.State.{Address, U256, enabled, spurious_dragon}
use sabvm.Journal.{
  ◌>>◌, ◌>>=◌, JournalEntry, JournaledState, Log, Run, done, db_error, panic, world,
}
use sabvm.Journal.View.{AccountView, WorldView, view, put_view}
use sabvm.Journal.Restore.{journal_revert_view, revert_view, ◌then_view◌}
use sabvm.Journal.Algebra.{accounts-put_view_ne, accounts-put_view_self}

-- The machine integers of a view are in their range, and no transient slot holds a zero.
pub record Fits (v : WorldView) : Type 0 where
  pub balances :
      (a : Address) (x : AccountView) → v.accounts a ≡ some x → (t : U256) → x.balance t < u256_mod
  pub nonces : (a : Address) (x : AccountView) → v.accounts a ≡ some x → x.nonce < u64_mod
  pub transient : (a : Address) (k : U256) → v.transient_storage a k ≢ some 0

-- A fact of every account after a write, from that of the written one and those before.
put_view_all :
    (P : AccountView → Type 0) (a : Address) (x : AccountView) (v : WorldView)
    → P x
    → ((b : Address) (y : AccountView) → v.accounts b ≡ some y → P y)
    → (b : Address) (y : AccountView) → (put_view a x v).accounts b ≡ some y
    → P y
unfolding put_view
put_view_all P a x v hx hv b y e = elim (==-cases b a) [
  | inl same ↦ subst P (some_inj (written same)) hx
  | inr other ↦ hv b y (sym (accounts-put_view_ne a b x v other) ∙ e)
]
  where
    written : b ≡ a → some x ≡ some y
    written same =
        sym (accounts-put_view_self a x v)
        ∙ subst (λ c. (put_view a x v).accounts c ≡ some y) same e

pub Fits-put_view :
    (a : Address) (x : AccountView) (v : WorldView)
    → Fits v
    → ((t : U256) → x.balance t < u256_mod)
    → x.nonce < u64_mod
    → Fits (put_view a x v)
Fits-put_view a x v h hb hn = record {
  balances = put_view_all (λ y. (t : U256) → y.balance t < u256_mod) a x v hb h.balances;
  nonces = put_view_all (λ y. y.nonce < u64_mod) a x v hn h.nonces;
  transient = unfold put_view in h.transient;
}

abbrev pub dragon : JournaledState → Bool
dragon s = enabled s.spec spurious_dragon

abbrev pub view_of : JournaledState → WorldView
view_of s = view (world s)

abbrev pub flatten : List (List JournalEntry) → List JournalEntry
flatten [] = []
flatten (p ∷ ps) = p ++ flatten ps

-- From `s` to `s'` whole parts and then entries were pushed, newest first, that lead back.
pub record Undoes (s s' : JournaledState) : Type 0 where
  pub parts : List (List JournalEntry)
  pub entries : List JournalEntry
  pub new_logs : List Log
  pub journal_is :
      (last : List JournalEntry) (rest : List (List JournalEntry))
      → s.journal ≡ last ∷ rest
      → s'.journal ≡ parts ++ ((entries ++ last) ∷ rest)
  pub restores :
      journal_revert_view (dragon s) (flatten parts ++ entries) (view_of s') ≡ some (view_of s)
  pub logs_is : s'.logs ≡ new_logs ++ s.logs
  pub depth_is : s'.depth ≡ s.depth
  pub spec_is : s'.spec ≡ s.spec
  pub fits : Fits (view_of s')

pub journal_revert_view-append :
    (d : Bool) (es fs : List JournalEntry) (v : WorldView)
    → journal_revert_view d (es ++ fs) v
      ≡ (journal_revert_view d es v then_view journal_revert_view d fs)
unfolding journal_revert_view
journal_revert_view-append d [] fs v = refl
journal_revert_view-append d (e ∷ es) fs v = elim (Option-cases (revert_view d e v)) [
  | inl fails ↦ rw fails
  | inr (v', h) ↦ rw h (journal_revert_view-append d es fs v')
]

pub revert_one :
    (d : Bool) (entry : JournalEntry) (u v : WorldView)
    → revert_view d entry u ≡ some v
    → journal_revert_view d (entry ∷ []) u ≡ some v
unfolding journal_revert_view
revert_one d entry u v h = ap (λ o. o then_view some) h

-- Two stretches of entries that lead back one after the other.
pub restore_both :
    (d : Bool) (es fs : List JournalEntry) (u : WorldView) {v w : WorldView}
    → journal_revert_view d es u ≡ some v
    → journal_revert_view d fs v ≡ some w
    → journal_revert_view d (es ++ fs) u ≡ some w
restore_both d es fs u h k = journal_revert_view-append d es fs u ∙ rw h k

-- How a run ended: a value with its condition, an error of the database with its condition, or a
-- panic, which ends the process.
pub data Post {A : Type 0} (Q : A → JournaledState → Type 0) (E : JournaledState → Type 0)
    : Run A → Type 0 where
  returns : {a : A} {s : JournaledState} → Q a s → Post Q E (done a s)
  fails : {s : JournaledState} → E s → Post Q E (db_error s)
  panics : Post Q E panic

pub flatten-append :
    (ps qs : List (List JournalEntry)) → flatten (ps ++ qs) ≡ flatten ps ++ flatten qs
flatten-append [] qs = refl
flatten-append (p ∷ ps) qs = simp (flatten-append ps qs, append_assoc)

-- The parts and the entries of two stretches of work, the later first.
abbrev join_parts :
    List (List JournalEntry)
    → List JournalEntry
    → List (List JournalEntry)
    → List (List JournalEntry)
join_parts later entries [] = later
join_parts later entries (p ∷ ps) = later ++ ((entries ++ p) ∷ ps)

abbrev join_entries :
    List JournalEntry → List JournalEntry → List (List JournalEntry) → List JournalEntry
join_entries later earlier [] = later ++ earlier
join_entries later earlier (p ∷ ps) = earlier

module _ (vp : List (List JournalEntry)) (ve ue last : List JournalEntry) where
  join_flatten :
      (up : List (List JournalEntry))
      → flatten (join_parts vp ve up) ++ join_entries ve ue up
        ≡ (flatten vp ++ ve) ++ (flatten up ++ ue)
  join_flatten [] = simp append_assoc
  join_flatten (p ∷ ps) = simp (flatten-append, append_assoc)

  join_journal :
      (rest : List (List JournalEntry)) {j j' : List (List JournalEntry)}
      (up : List (List JournalEntry))
      → j ≡ up ++ ((ue ++ last) ∷ rest)
      → ((l : List JournalEntry) (r : List (List JournalEntry))
          → j ≡ l ∷ r
          → j' ≡ vp ++ ((ve ++ l) ∷ r))
      → j' ≡ join_parts vp ve up ++ ((join_entries ve ue up ++ last) ∷ rest)
  join_journal rest [] h k = simp append_assoc (k (ue ++ last) rest h)
  join_journal rest (p ∷ ps) h k = simp append_assoc (k p (ps ++ ((ue ++ last) ∷ rest)) h)

-- Work after work is undone by the entries of both.
pub Undoes-trans : {s t u : JournaledState} → Undoes s t → Undoes t u → Undoes s u
Undoes-trans {s} {t} {u} a b = record {
  parts = join_parts b.parts b.entries a.parts;
  entries = join_entries b.entries a.entries a.parts;
  new_logs = b.new_logs ++ a.new_logs;
  journal_is = λ last rest e.
      join_journal b.parts b.entries a.entries last rest a.parts (a.journal_is last rest e)
        b.journal_is;
  restores = rw (join_flatten b.parts b.entries a.entries [] a.parts) (
      restore_both (dragon s) (flatten b.parts ++ b.entries) (flatten a.parts ++ a.entries)
        (view_of u) (rw a.spec_is at b.restores) a.restores);
  logs_is = b.logs_is ∙ simp append_assoc (ap (λ l. b.new_logs ++ l) a.logs_is);
  depth_is = b.depth_is ∙ a.depth_is;
  spec_is = b.spec_is ∙ a.spec_is;
  fits = b.fits;
}

pub Undoes-refl : (s : JournaledState) → Fits (view_of s) → Undoes s s
unfolding journal_revert_view
Undoes-refl s h = record {
  parts = [];
  entries = [];
  new_logs = [];
  journal_is = λ last rest e. e;
  restores = refl;
  logs_is = refl;
  depth_is = refl;
  spec_is = refl;
  fits = h;
}

-- ===== src/Journal/Undo/Checkpoint.antt =====
-- The proofs about `checkpoint`, journaled work, and `checkpoint_revert` after it.
use sabvm.Prelude.{
  ℕ, ◌+◌, ◌-◌, ◌%◌, ◌<◌, ⊤, List, [], ◌∷◌, ◌++◌, Option, none, some, ◌≡◌, refl, ap, ap₂, subst, sym,
  ◌∙◌, append_assoc, arith, u64_mod, length, length-append, take, drop, take-append, drop-append,
  Option-cases, inl, inr, some_inj, Bool,
}
use mathlib.Core.List.{append-nil}
use sabvm.Journal.{
  JournalEntry, JournaledState, JournalCheckpoint, Log, Run, done, panic, World, world,
  journal_revert, revert_parts, take_parts, usize_sub, revert_entry, checkpoint, checkpoint_revert,
  set_world, ◌then_world◌,
}
use sabvm.Journal.View.{view, map_option}
use sabvm.Journal.Restore.{journal_revert_view, journal_revert-view}
use sabvm.Journal.Undo.{Undoes, Fits, dragon, view_of, flatten, flatten-append}

-- What a reversal gives back: the view of the world, the journal, the logs, the depth, the spec.
pub record Restored (s s' : JournaledState) : Type 0 where
  pub same_view : view_of s' ≡ view_of s
  pub same_journal : s'.journal ≡ s.journal
  pub same_logs : s'.logs ≡ s.logs
  pub same_depth : s'.depth ≡ s.depth
  pub same_spec : s'.spec ≡ s.spec

-- The state right after a checkpoint, and the mark that it gave.
abbrev pub opened : JournaledState → JournaledState
opened s = record s { depth = (s.depth + 1) % u64_mod; journal = [] ∷ s.journal }

abbrev pub mark_of : JournaledState → JournalCheckpoint
mark_of s = record { log_i = length s.logs; journal_i = length s.journal }

pub checkpoint_lem : (s : JournaledState) → checkpoint s ≡ done (mark_of s) (opened s)
unfolding checkpoint
checkpoint_lem s = refl

then_world_assoc :
    (o : Option World) (f g : World → Option World)
    → ((o then_world f) then_world g) ≡ (o then_world λ w. f w then_world g)
then_world_assoc none f g = refl
then_world_assoc (some w) f g = refl

journal_revert-append :
    (d : Bool) (es fs : List JournalEntry) (w : World)
    → journal_revert d (es ++ fs) w ≡ (journal_revert d es w then_world journal_revert d fs)
unfolding journal_revert
journal_revert-append d [] fs w = refl
journal_revert-append d (e ∷ es) fs w = elim (Option-cases (revert_entry d e w)) [
  | inl fails ↦ rw fails
  | inr (w', h) ↦ rw h (journal_revert-append d es fs w')
]

then_world_ext :
    (o : Option World) (f g : World → Option World)
    → ((w : World) → f w ≡ g w)
    → (o then_world f) ≡ (o then_world g)
then_world_ext none f g h = refl
then_world_ext (some w) f g h = h w

revert_parts-flatten :
    (d : Bool) (ps : List (List JournalEntry)) (w : World)
    → revert_parts d ps w ≡ journal_revert d (flatten ps) w
revert_parts-flatten d [] w = unfold journal_revert revert_parts in refl
revert_parts-flatten d (p ∷ ps) w = step (revert_parts-flatten d ps)
  where
    step :
        ((w' : World) → revert_parts d ps w' ≡ journal_revert d (flatten ps) w')
        → revert_parts d (p ∷ ps) w ≡ journal_revert d (p ++ flatten ps) w
    step h =
        unfold revert_parts in
        then_world_ext (journal_revert d p w) (revert_parts d ps) (journal_revert d (flatten ps)) h
        ∙ sym (journal_revert-append d p (flatten ps) w)

drop-take_parts :
    (ps qs : List (List JournalEntry)) → drop (length ps) (take_parts (length ps) (ps ++ qs)) ≡ qs
unfolding take_parts
drop-take_parts [] qs = refl
drop-take_parts (p ∷ ps) qs = drop-take_parts ps qs

map_option-some :
    {A B : Type 0} (f : A → B) (o : Option A) (b : B)
    → map_option f o ≡ some b
    → (a : A) × ((o ≡ some a) × (f a ≡ b))
map_option-some f none b h = ground (arith, h)
map_option-some f (some a) b h = (a, (refl, some_inj h))

-- What `checkpoint_revert` reaches where the last parts are those since the mark.
abbrev reverted_to :
    JournalCheckpoint → World → List (List JournalEntry) → JournaledState → JournaledState
reverted_to mark w rest s = record (set_world w s) {
  depth = (s.depth + u64_mod - 1) % u64_mod;
  logs = drop (length s.logs - mark.log_i) s.logs;
  journal = rest;
}

checkpoint_revert_lem :
    (mark : JournalCheckpoint) (s : JournaledState) (pushed rest : List (List JournalEntry))
    (w : World)
    → s.journal ≡ pushed ++ rest
    → mark.journal_i ≡ length rest
    → revert_parts (dragon s) pushed (world s) ≡ some w
    → checkpoint_revert mark s ≡ done tt (reverted_to mark w rest s)
unfolding checkpoint_revert usize_sub
checkpoint_revert_lem mark s pushed rest w j m h = ap₂ ended taken kept ∙ ap (ended_with rest) h
  where
    undone : ℕ
    undone = usize_sub (length s.journal) mark.journal_i

    left : ℕ
    left = length s.journal - mark.journal_i

    ended_with : List (List JournalEntry) → Option World → Run ⊤
    ended_with keep o = elim o [ none ↦ panic | some w' ↦ done tt (reverted_to mark w' keep s) ]

    ended : List (List JournalEntry) → List (List JournalEntry) → Run ⊤
    ended parts keep = ended_with keep (revert_parts (dragon s) parts (world s))

    long : length s.journal ≡ length pushed + length rest
    long = ap length j ∙ length-append pushed rest

    count : undone ≡ length pushed
    count = ground (arith, long, m)

    taken : take undone s.journal ≡ pushed
    taken = ap₂ take count j ∙ take-append pushed rest

    kept : drop left (take_parts undone s.journal) ≡ rest
    kept = ap₂ drop (omega (arith, long, m)) (ap₂ take_parts count j) ∙ drop-take_parts pushed rest

-- Work that the journal undoes, between a checkpoint and the reversal to it, leaves no trace: the
-- reversal returns, and gives back the view, the journal, the logs, the depth and the spec of the
-- state before the checkpoint. The depth is a `usize`.
pub checkpoint_revert-Restored :
    (s s' : JournaledState)
    → Undoes (opened s) s'
    → s.depth < u64_mod
    → (r : JournaledState) × ((checkpoint_revert (mark_of s) s' ≡ done tt r) × Restored s r)
checkpoint_revert-Restored s s' u deep =
    let (w, (done_w, seen)) = map_option-some view _ _ back in
    (
      reverted_to (mark_of s) w s.journal s',
      (
        checkpoint_revert_lem (mark_of s) s' pushed s.journal w journal refl
            (revert_parts-flatten (dragon s') pushed (world s') ∙ done_w),
        record {
          same_view = seen;
          same_journal = refl;
          same_logs = logs;
          same_depth = rw u.depth_is (omega arith);
          same_spec = u.spec_is;
        },
      ),
    )
  where
    pushed : List (List JournalEntry)
    pushed = u.parts ++ ((u.entries ++ []) ∷ [])

    journal : s'.journal ≡ pushed ++ s.journal
    journal = u.journal_is [] s.journal refl ∙ simp append_assoc

    flat : flatten pushed ≡ flatten u.parts ++ u.entries
    flat = flatten-append u.parts ((u.entries ++ []) ∷ []) ∙ simp append-nil

    back :
        map_option view (journal_revert (dragon s') (flatten pushed) (world s')) ≡ some (view_of s)
    back =
        journal_revert-view (dragon s') (flatten pushed) (world s')
        ∙ rw (flat, u.spec_is) u.restores

    logs : drop (length s'.logs - length s.logs) s'.logs ≡ s.logs
    logs = rw (u.logs_is, length-append u.new_logs s.logs) (dropped u.new_logs s.logs)
      where
        dropped : (xs ys : List Log) → drop (length xs + length ys - length ys) (xs ++ ys) ≡ ys
        dropped xs ys = subst (λ n. drop n (xs ++ ys) ≡ ys) (omega arith) (drop-append xs ys)

-- A call that was committed is undone as part of the calling frame's work.
pub commit_Undoes :
    (s s' : JournaledState)
    → Undoes (opened s) s'
    → s.depth < u64_mod
    → Undoes s (record s' { depth = (s'.depth + u64_mod - 1) % u64_mod })
commit_Undoes s s' u deep = record {
  parts = pushed;
  entries = [];
  new_logs = u.new_logs;
  journal_is = λ last rest e. u.journal_is [] s.journal refl ∙ rw e (simp append_assoc);
  restores =
      ap (λ es. journal_revert_view (dragon s) es (view_of s')) (append-nil (flatten pushed) ∙ flat)
      ∙ u.restores;
  logs_is = u.logs_is;
  depth_is = rw u.depth_is (omega arith);
  spec_is = u.spec_is;
  fits = u.fits;
}
  where
    pushed : List (List JournalEntry)
    pushed = u.parts ++ ((u.entries ++ []) ∷ [])

    flat : flatten pushed ≡ flatten u.parts ++ u.entries
    flat = flatten-append u.parts ((u.entries ++ []) ∷ []) ∙ simp append-nil

-- What was restored needs nothing to be undone.
pub Restored-Undoes : (s s' : JournaledState) → Fits (view_of s) → Restored s s' → Undoes s s'
unfolding journal_revert_view
Restored-Undoes s s' h r = record {
  parts = [];
  entries = [];
  new_logs = [];
  journal_is = λ last rest e. r.same_journal ∙ e;
  restores = ap some r.same_view;
  logs_is = r.same_logs;
  depth_is = r.same_depth;
  spec_is = r.same_spec;
  fits = subst Fits (sym r.same_view) h;
}

-- ===== src/Journal/Undo/Transient.antt =====
-- The proofs about undoing `tstore`.
use sabvm.Prelude.{
  ⊤, [], ◌∷◌, Option, none, some, ◌≡◌, ◌≢◌, refl, ap, ◌==◌, if◌then◌else◌, arith, Option-cases, inl,
  inr,
}
use sabvm.State.{Address, U256, TransientStorage}
use sabvm.Journal.{
  transient_storage_change, JournaledState, M, pure, push_entry, set_transient, had_value, tstore,
}
use sabvm.Journal.View.{WorldView, view}
use sabvm.Journal.Restore.{journal_revert_view, revert_view}
use sabvm.Journal.Undo.{Undoes, Fits, dragon, view_of, returns, revert_one}
use sabvm.Journal.Undo.Touch.{Changes-Undoes, push_last-Post}
use sabvm.Journal.Undo.Accounts.{Kept}

abbrev written_value : U256 → Option U256
written_value new = if new == 0 then none else some new

abbrev with_transient : TransientStorage → WorldView → WorldView
with_transient t v = record v { transient_storage = t }

-- No slot holds a zero after a write either.
written_not_zero :
    (a : Address) (k new : U256) (t : TransientStorage)
    → ((b : Address) (l : U256) → t b l ≢ some 0)
    → (b : Address) (l : U256) → set_transient a k (written_value new) t b l ≢ some 0
unfolding set_transient
written_not_zero a k new t h b l = ground (arith, h b l)

-- Nothing is journaled where nothing changes.
unchanged :
    (a : Address) (k new : U256) (t : TransientStorage)
    → had_value (t a k) new ≡ none
    → (b : Address) (l : U256) → set_transient a k (written_value new) t b l ≡ t b l
unfolding set_transient had_value
unchanged a k new t h b l = elim (Option-cases (t a k)) [
  | inl e ↦ ground (arith, e, h)
  | inr (v, e) ↦ ground (arith, e, h)
]

-- What is journaled leads back.
restored :
    (a : Address) (k new had : U256) (t : TransientStorage)
    → t a k ≢ some 0
    → had_value (t a k) new ≡ some had
    → (b : Address) (l : U256)
    → set_transient a k (written_value had) (set_transient a k (written_value new) t) b l ≡ t b l
unfolding set_transient had_value
restored a k new had t z h b l = elim (Option-cases (t a k)) [
  | inl e ↦ ground (arith, e, h)
  | inr (v, e) ↦ ground (arith, e, h)
]

-- From a state whose numbers are in range and in which no transient slot holds a zero, a `tstore`
-- that returns is undone by its entries.
pub tstore-Kept :
    (a : Address) (k new : U256) (s : JournaledState) → Fits (view_of s) → Kept s (tstore a k new s)
unfolding tstore
tstore-Kept a k new s h = go (had_value (s.transient_storage a k) new) refl
  where
    t : TransientStorage
    t = s.transient_storage

    s1 : JournaledState
    s1 = record s { transient_storage = set_transient a k (written_value new) t }

    record_had : Option U256 → M ⊤
    record_had o = elim o [
      | none ↦ pure tt
      | some had ↦ push_entry (transient_storage_change a k had)
    ]

    fits : Fits (view_of s1)
    fits =
        unfold view in
        record {
          balances = h.balances;
          nonces = h.nonces;
          transient = written_not_zero a k new t h.transient;
        }

    seen : view_of s1 ≡ with_transient (set_transient a k (written_value new) t) (view_of s)
    seen = unfold view in refl

    same : had_value (t a k) new ≡ none → view_of s1 ≡ view_of s
    same e = unfold view in λ i. with_transient (λ b l. unchanged a k new t e b l i) (view_of s)

    still : had_value (t a k) new ≡ none → Undoes s s1
    still e = record {
      parts = [];
      entries = [];
      new_logs = [];
      journal_is = λ last rest j. j;
      restores = unfold journal_revert_view in ap some (same e);
      logs_is = refl;
      depth_is = refl;
      spec_is = refl;
      fits = fits;
    }

    back :
        (had : U256)
        → had_value (t a k) new ≡ some had
        → revert_view (dragon s) (transient_storage_change a k had) (view_of s1) ≡ some (view_of s)
    back had e =
        unfold revert_view view in
        λ i.
          some
            (with_transient (λ b l. restored a k new had t (h.transient a k) e b l i) (view_of s))

    go : (o : Option U256) → had_value (t a k) new ≡ o → Kept s (record_had o s1)
    go none e = returns (still e)
    go (some had) e = push_last-Post (transient_storage_change a k had) s1 λ s2 c moved.
        Changes-Undoes (transient_storage_change a k had ∷ [])
          (record {
            journal_is = c.journal_is;
            logs_is = c.logs_is;
            depth_is = c.depth_is;
            spec_is = c.spec_is;
          })
          (revert_one (dragon s) (transient_storage_change a k had) (view_of s2) (view_of s)
            (rw (ap view moved) (back had e)))
          (rw (ap view moved) fits)

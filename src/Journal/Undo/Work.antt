-- ===== src/Journal/Undo/Work.antt =====
-- Work that is undone from every state, and its composition.
use sabvm.Prelude.{Bool, true, false, if◌then◌else◌}
use sabvm.Journal.{JournaledState, Run, done, db_error, panic, M, ◌>>=◌, then_run, pure, is_err}
use sabvm.Journal.Undo.{Undoes, Undoes-trans, Undoes-refl, Fits, view_of, returns, fails, panics}
use sabvm.Journal.Undo.Touch.{Post-bind}
use sabvm.Journal.Undo.Accounts.{Kept}

-- What holds of work holds after other work that is undone.
pub Kept-after : {A : Type 0} {s t : JournaledState} {r : Run A} → Undoes s t → Kept t r → Kept s r
Kept-after u (returns v) = returns (Undoes-trans u v)
Kept-after u (fails v) = fails (Undoes-trans u v)
Kept-after u panics = panics

pub Kept-bind :
    {A B : Type 0} {s : JournaledState} {r : Run A} (f : A → M B)
    → Kept s r
    → ((a : A) (t : JournaledState) → Fits (view_of t) → Kept t (f a t))
    → Kept s (then_run r f)
Kept-bind f h k = Post-bind f h λ a t u. Kept-after u (k a t u.fits)

-- Work that is undone by its entries from every state, whether it ends in a value or in an error.
pub record Undoable {A : Type 0} (m : M A) : Type 0 where
  pub kept : (s : JournaledState) → Fits (view_of s) → Kept s (m s)

pub Undoable-bind :
    {A B : Type 0} {m : M A} {f : A → M B}
    → Undoable m
    → ((a : A) → Undoable (f a))
    → Undoable (m >>= f)
Undoable-bind {f} h k = record {
  kept = λ s fits. Kept-bind f (h.kept s fits) λ a t ft. (k a).kept t ft;
}

pub Undoable-guard : (b : Bool) {m : M Bool} → Undoable m → Undoable (if b then pure false else m)
Undoable-guard true h = record { kept = λ s fits. returns (Undoes-refl s fits) }
Undoable-guard false h = h

pub Undoable-is_err : {A : Type 0} {m : M A} → Undoable m → Undoable (is_err m)
Undoable-is_err {m} h = record { kept = λ s fits. go (h.kept s fits) }
  where
    go :
        {A : Type 0} {s : JournaledState} {r : Run A}
        → Kept s r
        → Kept s (elim r [ done _ s' ↦ done false s' | db_error s' ↦ done true s' | panic ↦ panic ])
    go (returns u) = returns u
    go (fails u) = returns u
    go panics = panics

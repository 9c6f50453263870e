-- ===== src/Journal/Effects/Balances.antt =====
-- What a transfer does to the balances.
use sabvm.Prelude.{
  ℕ, ◌+◌, ◌≤◌, ◌<◌, Bool, true, false, ◌&&◌, Option, none, some, ◌≡◌, ◌≢◌, refl, ap, sym, subst,
  ◌∙◌, ◌==◌, leb, ltb, if◌then◌else◌, arith, inl, inr, ◌⊎◌, u256_mod, wrapping_add, wrapping_sub,
  wrapping_add_exact, wrapping_sub_exact, ==_refl, ==-cases,
}
use sabvm.State.{Address, U256, Account, get_balance, mark_touch}
use sabvm.Journal.{
  balance_transfer, JournaledState, Run, TokenTransfer, TransferError, out_of_funds,
  overflow_payment, transfer_token, credit_recipient, record_transfer,
}
use sabvm.Journal.View.{AccountView, WorldView, account_view, view, put_view}
use sabvm.Journal.Restore.{increase_view, decrease_view, set_balance_view}
use sabvm.Journal.Undo.{Fits, view_of, Post, returns}
use sabvm.Journal.Undo.Touch.{push_entry-Post}
use sabvm.Journal.Undo.Transfer.{touched_view, balance-lt, debit-Post, credit-Post}
use sabvm.Journal.Undo.Tokens.{debited_Fits}

-- The balance of a token that an address holds in a view; an address that is not loaded holds none.
abbrev pub balance_in : WorldView → Address → U256 → U256
balance_in v a u = elim (v.accounts a) [ none ↦ 0 | some x ↦ x.balance u ]

balance_in_put :
    (v : WorldView) (a b : Address) (u : U256) (x : AccountView)
    → balance_in (put_view a x v) b u ≡ (if b == a then x.balance u else balance_in v b u)
unfolding put_view
balance_in_put v a b u x = ground arith

balance_in_loaded :
    (s : JournaledState) (a : Address) (u : U256) (acc : Account)
    → s.state.accounts a ≡ some acc
    → balance_in (view_of s) a u ≡ get_balance u acc.info
unfolding view account_view get_balance
balance_in_loaded s a u acc e = rw (e, balance_in)

-- The balances after a transfer between two addresses, from those before.
pub record Moved (from to : Address) (t amount : U256) (v v' : WorldView) : Type 0 where
  pub covered : amount ≤ balance_in v from t
  pub fits : balance_in v to t + amount < u256_mod
  pub sender : balance_in v' from t + amount ≡ balance_in v from t
  pub receiver : balance_in v' to t ≡ balance_in v to t + amount
  pub others :
      (a : Address) (u : U256)
      → ((a ≢ from) × (a ≢ to)) ⊎ (u ≢ t)
      → balance_in v' a u ≡ balance_in v a u

-- What the answer of `transfer_token` says.
abbrev pub Paid :
    Address → Address → U256 → U256 → WorldView → Option TransferError → WorldView → Type 0
Paid from to t amount v none v' = Moved from to t amount v v'
Paid from to t amount v (some out_of_funds) v' =
    (balance_in v from t < amount)
    × ((a : Address) (u : U256) → balance_in v' a u ≡ balance_in v a u)
Paid from to t amount v (some overflow_payment) v' = u256_mod ≤ balance_in v to t + amount

touched_balance :
    (a : Address) (acc : Account) (s : JournaledState) (u : U256)
    → s.state.accounts a ≡ some acc
    → (touched_view a acc).balance u ≡ balance_in (view_of s) a u
unfolding account_view mark_touch get_balance
touched_balance a acc s u e = sym (balance_in_loaded s a u acc e)

-- The balances after half of a transfer: `g` of the balance of one token at one address.
module _ (a : Address) (t : U256) (acc : Account) (s s1 : JournaledState) (x : AccountView)
    (g : ℕ → ℕ)
    (shape : (u : U256)
      → x.balance u ≡ (
          if u == t
          then g ((touched_view a acc).balance t)
          else (touched_view a acc).balance u)) where
  changed :
      (b : Bool)
      → s.state.accounts a ≡ some acc
      → view_of s1 ≡ put_view a (if b then x else touched_view a acc) (view_of s)
      → (c : Address) (u : U256)
      → balance_in (view_of s1) c u ≡ (
          if c == a && (b && u == t)
          then g (balance_in (view_of s) a t)
          else balance_in (view_of s) c u)
  changed b e seen c u =
      ap (λ v. balance_in v c u) seen
      ∙ balance_in_put (view_of s) a c u (if b then x else touched_view a acc)
      ∙ step b (==-cases c a)
    where
      at_a : (w : U256) → (touched_view a acc).balance w ≡ balance_in (view_of s) a w
      at_a w = touched_balance a acc s w e

      step :
          (b : Bool)
          → (c ≡ a) ⊎ ((c == a) ≡ false)
          → (if c == a
              then (if b then x else touched_view a acc).balance u
              else balance_in (view_of s) c u)
            ≡ (if c == a && (b && u == t)
                then g (balance_in (view_of s) a t)
                else balance_in (view_of s) c u)
      step b (inr other) = rw other
      step b (inl same) =
          subst
            (λ d.
              (if d == a
                then (if b then x else touched_view a acc).balance u
                else balance_in (view_of s) d u)
              ≡ (if d == a && (b && u == t)
                  then g (balance_in (view_of s) a t)
                  else balance_in (view_of s) d u))
            (sym same) (rw ==_refl (self b))
        where
          self :
              (b : Bool)
              → (if b then x else touched_view a acc).balance u ≡ (
                  if b && u == t
                  then g (balance_in (view_of s) a t)
                  else balance_in (view_of s) a u)
          self true = shape u ∙ rw (at_a t, at_a u)
          self false = at_a u

decrease_shape :
    (t amount u : U256) (x : AccountView)
    → (decrease_view t amount x).balance u
      ≡ (if u == t then wrapping_sub (x.balance t) amount else x.balance u)
unfolding decrease_view set_balance_view
decrease_shape t amount u x = refl

increase_shape :
    (t amount u : U256) (x : AccountView)
    → (increase_view t amount x).balance u
      ≡ (if u == t then wrapping_add (x.balance t) amount else x.balance u)
unfolding increase_view set_balance_view
increase_shape t amount u x = refl

-- The balances after both halves.
module _ (from to : Address) (t amount : U256) (v v1 : WorldView) (ne : to ≢ from)
    (small : balance_in v from t < u256_mod) (enough : amount ≤ balance_in v from t)
    (debited : (c : Address) (u : U256)
      → balance_in v1 c u ≡ (
          if c == from && u == t
          then wrapping_sub (balance_in v from t) amount
          else balance_in v c u)) where
  receiver_before : balance_in v1 to t ≡ balance_in v to t
  receiver_before = ground (arith, debited to t)

  both_halves :
      (v2 : WorldView)
      → balance_in v1 to t + amount < u256_mod
      → ((c : Address) (u : U256)
          → balance_in v2 c u ≡ (
              if c == to && u == t
              then wrapping_add (balance_in v1 to t) amount
              else balance_in v1 c u))
      → Moved from to t amount v v2
  both_halves v2 room credited = record {
    covered = enough;
    fits = omega (arith, room, receiver_before);
    sender = ground (
      arith,
      debited from t,
      credited from t,
      wrapping_sub_exact (balance_in v from t) amount small enough,
    );
    receiver = ground (
      arith,
      credited to t,
      receiver_before,
      wrapping_add_exact (balance_in v1 to t) amount room,
    );
    others = λ a u away. credited a u ∙ elim away [
      | inl (af, at) ↦ ground (arith, af, at, debited a u)
      | inr ut ↦ ground (arith, ut, debited a u)
    ];
  }

module _ (from to : Address) (tr : TokenTransfer) (s : JournaledState) (h : Fits (view_of s))
    (ne : to ≢ from) where
  -- If `transfer_token` between two different addresses returns, its answer is true to the
  -- balances: on success the amount was covered, it left the sender and reached the receiver
  -- with no wrap-around, and no other balance changed; `OutOfFunds` is answered if the balance
  -- is less than the amount, and no balance changed; `OverflowPayment` if the receiver's would
  -- not fit. It does not end in an error of the database. The numbers of the state before are
  -- in range.
  pub transfer_token-Paid :
      Post
        (λ r s'. Paid from to tr.id tr.amount (view_of s) r (view_of s'))
        (λ _. ⊥)
        (transfer_token from to tr s)
  unfolding transfer_token
  transfer_token-Paid =
      debit-Post from tr.id tr.amount _ s h
        λ acc s1 b e _ enough seen _. after_debit acc s1 b e enough seen
    where
      P : Run (Option TransferError) → Type 0
      P = Post (λ r s'. Paid from to tr.id tr.amount (view_of s) r (view_of s')) (λ _. ⊥)

      balance : U256
      balance = balance_in (view_of s) from tr.id

      debited_balances :
          (acc : Account) (s1 : JournaledState) (b : Bool)
          → s.state.accounts from ≡ some acc
          → view_of s1
            ≡ put_view from
                (if b
                  then decrease_view tr.id tr.amount (touched_view from acc)
                  else touched_view from acc)
                (view_of s)
          → (c : Address) (u : U256)
          → balance_in (view_of s1) c u ≡ (
              if c == from && (b && u == tr.id)
              then wrapping_sub balance tr.amount
              else balance_in (view_of s) c u)
      debited_balances acc s1 b e seen =
          changed from tr.id acc s s1 _ (λ x. wrapping_sub x tr.amount)
            (λ u. decrease_shape tr.id tr.amount u (touched_view from acc)) b e seen

      less :
          (acc : Account)
          → s.state.accounts from ≡ some acc
          → false ≡ leb tr.amount (get_balance tr.id acc.info)
          → balance < tr.amount
      less acc e short = ground (arith, short, balance_in_loaded s from tr.id acc e)

      small : (acc : Account) → s.state.accounts from ≡ some acc → balance < u256_mod
      small acc e =
          omega (arith, balance_in_loaded s from tr.id acc e, balance-lt from acc tr.id s h e)

      covered :
          (acc : Account)
          → s.state.accounts from ≡ some acc
          → true ≡ leb tr.amount (get_balance tr.id acc.info)
          → tr.amount ≤ balance
      covered acc e enough = ground (arith, enough, balance_in_loaded s from tr.id acc e)

      over :
          (acc : Account) (s1 : JournaledState)
          → s.state.accounts from ≡ some acc
          → true ≡ leb tr.amount (get_balance tr.id acc.info)
          → view_of s1
            ≡ put_view from (decrease_view tr.id tr.amount (touched_view from acc)) (view_of s)
          → (acc2 : Account) → s1.state.accounts to ≡ some acc2
          → false ≡ ltb (get_balance tr.id acc2.info + tr.amount) u256_mod
          → u256_mod ≤ balance_in (view_of s) to tr.id + tr.amount
      over acc s1 e enough seen acc2 e2 room = ground (
        arith,
        room,
        balance_in_loaded s1 to tr.id acc2 e2,
        receiver_before from to tr.id tr.amount (view_of s) (view_of s1) ne (small acc e)
            (covered acc e enough) (debited_balances acc s1 true e seen),
      )

      after_credit :
          (acc : Account) (s1 : JournaledState)
          → s.state.accounts from ≡ some acc
          → true ≡ leb tr.amount (get_balance tr.id acc.info)
          → view_of s1
            ≡ put_view from (decrease_view tr.id tr.amount (touched_view from acc)) (view_of s)
          → (acc2 : Account) (s2 : JournaledState) (b : Bool) → s1.state.accounts to ≡ some acc2
          → b ≡ ltb (get_balance tr.id acc2.info + tr.amount) u256_mod
          → view_of s2
            ≡ put_view to
                (if b
                  then increase_view tr.id tr.amount (touched_view to acc2)
                  else touched_view to acc2)
                (view_of s1)
          → P (record_transfer from to tr b s2)
      after_credit acc s1 e enough seen acc2 s2 false e2 room seen2 =
          unfold record_transfer in
          returns {a = some overflow_payment} (over acc s1 e enough seen acc2 e2 room)
      after_credit acc s1 e enough seen acc2 s2 true e2 room seen2 =
          unfold record_transfer in
          push_entry-Post (balance_transfer from to tr.id tr.amount) _ s2 λ s3 _ same.
            returns {a = none} (
              rw (ap view same) (
                both_halves from to tr.id tr.amount (view_of s) (view_of s1) ne (small acc e)
                  (covered acc e enough) (debited_balances acc s1 true e seen) (view_of s2)
                  (ground (arith, room, balance_in_loaded s1 to tr.id acc2 e2))
                  (changed to tr.id acc2 s1 s2 _ (λ x. wrapping_add x tr.amount)
                    (λ u. increase_shape tr.id tr.amount u (touched_view to acc2)) true e2 seen2)))

      after_debit :
          (acc : Account) (s1 : JournaledState) (b : Bool)
          → s.state.accounts from ≡ some acc
          → b ≡ leb tr.amount (get_balance tr.id acc.info)
          → view_of s1
            ≡ put_view from
                (if b
                  then decrease_view tr.id tr.amount (touched_view from acc)
                  else touched_view from acc)
                (view_of s)
          → P (credit_recipient from to tr b s1)
      after_debit acc s1 false e short seen =
          unfold credit_recipient in
          returns {a = some out_of_funds}
            (less acc e short, λ c u. debited_balances acc s1 false e seen c u ∙ ground arith)
      after_debit acc s1 true e enough seen =
          unfold credit_recipient in
          credit-Post to tr.id tr.amount _ s1 (debited_Fits from tr.id tr.amount acc s s1 h e seen)
            λ acc2 s2 b2 e2 _ room seen2 _.
              after_credit acc s1 e enough seen acc2 s2 b2 e2 room seen2

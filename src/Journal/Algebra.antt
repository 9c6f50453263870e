-- ===== src/Journal/Algebra.antt =====
-- Proofs about changes of single accounts of a view, one after another.
use sabvm.Prelude.{
  ℕ, false, some, ◌≡◌, ap, ◌∙◌, ◌==◌, if◌then◌else◌, arith, ◌<◌, wrapping_add, wrapping_sub,
  u256_mod, wrapping_add-sub, wrapping_sub-add, ==_refl,
}
use sabvm.State.{Address, U256, update}
use sabvm.Journal.View.{AccountView, WorldView, put_view, modify_view}
use sabvm.Journal.Restore.{increase_view, decrease_view, set_balance_view}

update_same {ℓ} : {A : Type ℓ} (f : ℕ → A) (k : ℕ) (v : A) (j : ℕ) → f k ≡ v → update f k v j ≡ f j
update_same f k v j h = ground arith

update_twice {ℓ} :
    {A : Type ℓ} (f : ℕ → A) (k : ℕ) (u v : A) (j : ℕ)
    → update (update f k u) k v j ≡ update f k v j
update_twice f k u v j = ground arith

update_swap {ℓ} :
    {A : Type ℓ} (f : ℕ → A) (k l : ℕ) (u v : A) (j : ℕ)
    → (k == l) ≡ false
    → update (update f k u) l v j ≡ update (update f l v) k u j
update_swap f k l u v j h = ground arith

module _ (address : Address) where
  pub put_view_same :
      (x : AccountView) (v : WorldView) → v.accounts address ≡ some x → put_view address x v ≡ v
  unfolding put_view
  put_view_same x v h =
      λ i. record v { accounts = λ j. update_same v.accounts address (some x) j h i }

  pub put_view_twice :
      (x y : AccountView) (v : WorldView)
      → put_view address y (put_view address x v) ≡ put_view address y v
  unfolding put_view
  put_view_twice x y v =
      λ i. record v { accounts = λ j. update_twice v.accounts address (some x) (some y) j i }

  pub accounts-put_view_self :
      (x : AccountView) (v : WorldView) → (put_view address x v).accounts address ≡ some x
  unfolding put_view
  accounts-put_view_self x v = rw ==_refl

  pub modify_view_present :
      (g : AccountView → AccountView) (x : AccountView) (v : WorldView)
      → v.accounts address ≡ some x
      → modify_view address g v ≡ some (put_view address (g x) v)
  unfolding modify_view
  modify_view_present g x v h = rw (h, modify_view)

  -- A change after a write.
  pub modify_view-put_view :
      (g : AccountView → AccountView) (x : AccountView) (v : WorldView)
      → modify_view address g (put_view address x v) ≡ some (put_view address (g x) v)
  modify_view-put_view g x v =
      modify_view_present g x (put_view address x v) (accounts-put_view_self x v)
      ∙ ap some (put_view_twice x (g x) v)

  -- A change that takes a written account back to what it was.
  pub modify_view_back :
      (g : AccountView → AccountView) (x y : AccountView) (v : WorldView)
      → v.accounts address ≡ some x
      → g y ≡ x
      → modify_view address g (put_view address y v) ≡ some v
  modify_view_back g x y v h e =
      modify_view-put_view g y v
      ∙ ap (λ z. some (put_view address z v)) e
      ∙ ap some (put_view_same x v h)

pub put_view_swap :
    (a b : Address) (x y : AccountView) (v : WorldView)
    → (a == b) ≡ false
    → put_view b y (put_view a x v) ≡ put_view a x (put_view b y v)
unfolding put_view
put_view_swap a b x y v h =
    λ i. record v { accounts = λ j. update_swap v.accounts a b (some x) (some y) j h i }

pub accounts-put_view_ne :
    (a b : Address) (x : AccountView) (v : WorldView)
    → (b == a) ≡ false
    → (put_view a x v).accounts b ≡ v.accounts b
unfolding put_view
accounts-put_view_ne a b x v h = rw h

pub increase_view-decrease :
    (t amount : U256) (x : AccountView)
    → ((u : U256) → x.balance u < u256_mod)
    → amount < u256_mod
    → increase_view t amount (decrease_view t amount x) ≡ x
unfolding increase_view decrease_view set_balance_view
increase_view-decrease t amount x h k = λ i. record x { balance = λ u. back u i }
  where
    back :
        (u : U256)
        → (if u == t
            then wrapping_add
                (if t == t then wrapping_sub (x.balance t) amount else x.balance t)
                amount
            else if u == t
            then wrapping_sub (x.balance t) amount
            else x.balance u)
          ≡ x.balance u
    back u = ground (arith, wrapping_add-sub (x.balance t) amount (h t) k, ==_refl t)

pub decrease_view-increase :
    (t amount : U256) (x : AccountView)
    → ((u : U256) → x.balance u < u256_mod)
    → amount < u256_mod
    → decrease_view t amount (increase_view t amount x) ≡ x
unfolding increase_view decrease_view set_balance_view
decrease_view-increase t amount x h k = λ i. record x { balance = λ u. back u i }
  where
    back :
        (u : U256)
        → (if u == t
            then wrapping_sub
                (if t == t then wrapping_add (x.balance t) amount else x.balance t)
                amount
            else if u == t
            then wrapping_add (x.balance t) amount
            else x.balance u)
          ≡ x.balance u
    back u = ground (arith, wrapping_sub-add (x.balance t) amount (h t) k, ==_refl t)

-- ===== src/Tests/Data.antt =====
-- The data of the tests: a database, a hash and a state in which every address is loaded.
use sabvm.Prelude.{
  ◌<◌, Bool, true, false, [], ◌∷◌, none, some, ◌≡◌, subst, arith, u256_mod, u64_mod, some_inj,
}
use sabvm.State.{U256, AccountInfo, cancun, keccak_empty, from_info, get_balance}
use sabvm.Journal.{JournaledState, Database, value, Crypto, Run, done, db_error, panic}
use sabvm.Journal.View.{account_view, view}
use sabvm.Journal.Undo.{Fits, view_of, Undoes, returns, fails, panics}
use sabvm.Journal.Undo.Accounts.{InRange, Kept}

abbrev pub holder : AccountInfo
holder = record {
  balances = (0, 100) ∷ (7, 50) ∷ [];
  nonce = 3;
  code_hash = keccak_empty;
  code = some [];
}

abbrev pub db : Database
db = record {
  basic = λ _. value (some holder);
  code_by_hash = λ _. value [];
  storage = λ _ _. value 5;
  get_token_ids = value (7 ∷ []);
  is_token_id_valid = λ _. value true;
}

abbrev pub crypto : Crypto
crypto = record { keccak256 = λ bytes. 7 }

-- Every address is loaded and holds 100 of the base token and 50 of token 7.
abbrev pub state : JournaledState
state = record {
  state = record { accounts = λ _. some (from_info holder); token_ids = 7 ∷ [] };
  transient_storage = λ _ _. none;
  logs = [];
  depth = 0;
  journal = [] ∷ [];
  spec = cancun;
  warm_preloaded_addresses = λ _. false;
}

holder_balance : (t : U256) → get_balance t holder < u256_mod
unfolding get_balance
holder_balance t = ground arith

value_inj : {A : Type 0} {a b : A} → value a ≡ value b → a ≡ b
value_inj h = ground (arith, h)

pub db-InRange : InRange db
db-InRange = record {
  balances = λ a info e t.
      subst (λ i. get_balance t i < u256_mod) (some_inj (value_inj e)) (holder_balance t);
  nonces = λ a info e. subst (λ i. i.nonce < u64_mod) (some_inj (value_inj e)) (omega arith);
}

pub state-Fits : Fits (view_of state)
unfolding view account_view
state-Fits = record {
  balances = λ a x e t. subst (λ y. y.balance t < u256_mod) (some_inj e) (holder_balance t);
  nonces = λ a x e. subst (λ y. y.nonce < u64_mod) (some_inj e) (omega arith);
  transient = λ a k e. ground (arith, e);
}

-- Where a run ended.
abbrev pub state_of : {A : Type 0} → Run A → JournaledState
state_of (done a s) = s
state_of (db_error s) = s
state_of panic = state

abbrev pub is_done : {A : Type 0} → Run A → Bool
is_done (done a s) = true
is_done (db_error s) = false
is_done panic = false

pub Kept-state_of :
    {A : Type 0} {s : JournaledState} {r : Run A}
    → Kept s r
    → is_done r ≡ true
    → Undoes s (state_of r)
Kept-state_of (returns u) e = u
Kept-state_of (fails u) e = u
Kept-state_of panics e = ground (arith, e)

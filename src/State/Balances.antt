-- ===== src/State/Balances.antt =====
-- The laws of the balance methods of `AccountInfo`.
use sabvm.Prelude.{◌≡◌, refl, [], ◌∷◌, some, arith, ◌==◌, if◌then◌else◌}
use sabvm.State.Defs.{U256, TokenBalances, lookup, insert, AccountInfo, get_balance, set_balance}

-- After an insertion a key reads the new value if it is the inserted one, and else as before.
pub lookup-insert :
    (k j : U256) (v : U256) (m : TokenBalances)
    → lookup j (insert k v m) ≡ (if j == k then some v else lookup j m)
lookup-insert k j v [] = refl
lookup-insert k j v ((i, w) ∷ m) = ground (arith, lookup-insert k j v m)

pub get_balance-set_balance :
    (t u v : U256) (info : AccountInfo)
    → get_balance u (set_balance t v info) ≡ (if u == t then v else get_balance u info)
unfolding get_balance set_balance
get_balance-set_balance t u v info = ground (arith, lookup-insert t u v info.balances)

-- ===== src/Tests/Totality.antt =====
-- Where the journal panics and where not, at concrete inputs.
use sabvm.Prelude.{Bool, List, [], ◌∷◌, none, some, ◌≡◌, ◌≢◌, refl, ◌==◌, if◌then◌else◌}
use sabvm.State.{from_info}
use sabvm.Journal.{JournaledState, Run, panic, TokenTransfer, transfer, burn, mint}
use sabvm.Journal.Effects.Totality.{transfer-total, burn-total}
use sabvm.Journal.Effects.Mint.{mint-total, mint-unloaded}
use sabvm.Tests.Data.{db, crypto, state, holder}

abbrev payment : List TokenTransfer
payment = record { id = 7; amount = 10 } ∷ []

-- Only address 1 is loaded.
abbrev sparse : JournaledState
sparse = record state {
  state = record (state.state) { accounts = λ a. if a == 1 then some (from_info holder) else none };
}

transfer-total_example : ◌≢◌ {A = Run _} (transfer db 1 2 payment sparse) panic
transfer-total_example = transfer-total 1 2 db payment sparse refl

burn-total_example : ◌≢◌ {A = Run Bool} (burn crypto db 1 0 2 5 sparse) panic
burn-total_example = burn-total crypto db 1 0 2 5 sparse refl

mint-total_example : ◌≢◌ {A = Run Bool} (mint crypto db 2 1 0 5 sparse) panic
mint-total_example = mint-total crypto db 2 1 0 5 sparse refl refl

mint-unloaded_example : mint crypto db 1 2 0 5 sparse ≡ panic
mint-unloaded_example =
    mint-unloaded crypto db 1 2 0 5 sparse 7 [] (from_info holder) refl refl refl

-- ===== src/NativeTokens/Monad.antt =====
-- How a function of the precompile ends, and its inputs.
use sabvm.Prelude.{Bool, true, false, ⊤, List, [], ◌∷◌, Option, none, some, ℕ, ◌≡◌}
use sabvm.State.{Address}
use sabvm.Journal.{JournaledState, M, Run, TokenTransfer}
use sabvm.NativeTokens.Bytes.{Bytes}

-- `CallValues`
pub data CallValues : Type 0 where
  transfer_values : List TokenTransfer → CallValues
  apparent_values : List TokenTransfer → CallValues

abbrev pub get_values : CallValues → List TokenTransfer
get_values (transfer_values values) = values
get_values (apparent_values values) = values

-- The fields of `CallInputs` that the precompile reads.
pub record CallInputs : Type 0 where
  pub input : Bytes
  pub target_address : Address
  pub values : CallValues
  pub is_static : Bool

-- The errors of the precompile; `mint_failed` and its like are `Error::Other` with that text.
pub data PrecompileError : Type 0 where
  out_of_gas invalid_input attempted_state_change_during_static_call : PrecompileError
  unauthorized_caller mint_failed burn_failed transfer_failed : PrecompileError

pub data ResultOrNewCall : Type 0 where
  -- gas_used, returned_bytes
  result : ℕ → Bytes → ResultOrNewCall
  -- target_address, token_transfers, input_data
  call : Address → List TokenTransfer → Bytes → ResultOrNewCall

-- A value or an error, each with the journaled state that it leaves, or a panic.
pub data Outcome (A : Type 0) : Type 0 where
  ok : A → JournaledState → Outcome A
  err : PrecompileError → JournaledState → Outcome A
  panic : Outcome A

abbrev pub P : Type 0 → Type 0
P A = JournaledState → Outcome A

infixl 5 ◌>>=◌ ◌>>◌
abbrev pub ◌>>=◌ : {A B : Type 0} → P A → (A → P B) → P B
◌>>=◌ m f s = elim (m s) [ ok a s' ↦ f a s' | err e s' ↦ err e s' | panic ↦ panic ]

abbrev pub ◌>>◌ : {A B : Type 0} → P A → P B → P B
m >> k = m >>= λ _. k

abbrev pub return : {A : Type 0} → A → P A
return a s = ok a s

abbrev pub fail : {A : Type 0} → PrecompileError → P A
fail e s = err e s

abbrev pub fail_if : Bool → PrecompileError → P ⊤
fail_if true e = fail e
fail_if false e = return tt

-- `.map_err(|_| e)?` on a call of the journaled state.
abbrev pub or_error : {A : Type 0} → PrecompileError → M A → P A
or_error e m s = elim (m s) [
  | Run.done a s' ↦ ok a s'
  | Run.db_error s' ↦ err e s'
  | Run.panic ↦ panic
]

-- `.map_err(|_| Error::InvalidInput)?` on a parser.
abbrev pub parse : {A : Type 0} → Option A → P A
parse none = fail invalid_input
parse (some a) = return a

-- "if the input has not been fully consumed by this point, it has been ill-formed"
abbrev pub end_of_input : Bytes → P ⊤
end_of_input [] = return tt
end_of_input (_ ∷ _) = fail invalid_input

module _ {A B : Type 0} (m : P A) (f : A → P B) {s s' : JournaledState} where
  pub bind-err : {e : PrecompileError} → m s ≡ err e s' → (m >>= f) s ≡ err e s'
  bind-err h = rw (h, ◌>>=◌)

  pub bind-ok : {a : A} → m s ≡ ok a s' → (m >>= f) s ≡ f a s'
  bind-ok h = rw (h, ◌>>=◌)

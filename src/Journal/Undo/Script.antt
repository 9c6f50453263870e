-- ===== src/Journal/Undo/Script.antt =====
-- Sequences of journaled work, with calls in them that are committed or reverted, as the frames of
-- the interpreter make them.
use sabvm.Prelude.{⊤, Bool, true, false, List, Option, none, some, ◌==◌, if◌then◌else◌, contains}
use sabvm.State.{Address, U256, Bytecode, keccak_empty}
use sabvm.Journal.{
  JournalCheckpoint, Log, M, ◌>>=◌, ◌>>◌, pure, Database, Crypto, TokenTransfer, TransferError,
  out_of_funds, overflow_payment, checkpoint, checkpoint_commit, checkpoint_revert, touch,
  inc_nonce, load_account, load_native_token_ids, transfer, burn, mint, set_code, load_code,
  token_id_address, sload, sstore, tstore, log,
}
use sabvm.Journal.Undo.Native.{AllWords}

-- The work of one instruction on the journaled state.
pub data Action : Type 0 where
  loads_ids : Action
  loads loads_code touches counts : Address → Action
  reads : Address → U256 → Action
  writes writes_transient : Address → U256 → U256 → Action
  logs : Log → Action
  -- burner, sub_id, token_holder, amount
  burns : Address → U256 → Address → U256 → Action
  -- minter, recipient, sub_id, amount
  mints : Address → Address → U256 → U256 → Action
  sets_code : Address → Bytecode → Action
  -- from, to, transfers of words
  pays : Address → Address → (ts : List TokenTransfer) → AllWords ts → Action

-- The work of a frame: actions, and calls that are committed or reverted when they end.
pub data Script : Type 0 where
  finished : Script
  act : Action → Script → Script
  call : Bool → Script → Script → Script

-- Whether no transfer overflowed the balance of its receiver. A frame in which it did is given up.
abbrev pub ends_well : Option TransferError → Bool
ends_well (some overflow_payment) = false
ends_well (some out_of_funds) = true
ends_well none = true

abbrev pub ignoring : {A : Type 0} → M A → M Bool
ignoring m = m >> pure true

-- A mint is given up if its id was not known before, since a reversal would leave it known.
abbrev pub mint_known : Crypto → Database → Address → Address → U256 → U256 → M Bool
mint_known crypto db minter recipient sub_id amount s =
    (mint crypto db minter recipient sub_id amount
        >> pure (contains s.state.token_ids (token_id_address crypto minter sub_id)))
      s

-- The code of an account that had some is given up, since a reversal would leave it without code.
abbrev pub set_first_code : Crypto → Address → Bytecode → M Bool
set_first_code crypto a code s =
    (set_code crypto a code
        >> pure (elim (s.state.accounts a) [
          | none ↦ false
          | some acc ↦ acc.info.code_hash == keccak_empty
        ]))
      s

unfoldable pub perform : Crypto → Database → Action → M Bool
unfolding load_account load_code touch inc_nonce load_native_token_ids sload sstore tstore log burn
    mint set_code transfer token_id_address
perform crypto db (loads a) = ignoring (load_account db a)
perform crypto db loads_ids = ignoring (load_native_token_ids db)
perform crypto db (loads_code a) = ignoring (load_code db a)
perform crypto db (touches a) = ignoring (touch a)
perform crypto db (counts a) = ignoring (inc_nonce a)
perform crypto db (reads a k) = ignoring (sload db a k)
perform crypto db (writes a k v) = ignoring (sstore db a k v)
perform crypto db (writes_transient a k v) = ignoring (tstore a k v)
perform crypto db (logs l) = ignoring (log l)
perform crypto db (burns a sub_id holder amount) = ignoring (burn crypto db a sub_id holder amount)
perform crypto db (mints minter recipient sub_id amount) =
    mint_known crypto db minter recipient sub_id amount
perform crypto db (sets_code a code) = set_first_code crypto a code
perform crypto db (pays from to ts _) = transfer db from to ts >>= λ r. pure (ends_well r)

abbrev pub end_call : Bool → JournalCheckpoint → M ⊤
end_call true mark = checkpoint_commit
end_call false mark = checkpoint_revert mark

-- A call makes a checkpoint, does its work, and commits or reverts.
abbrev pub enclose : Bool → M Bool → M Bool
enclose commits work = do
  mark ← checkpoint
  ok ← work
  if ok then end_call commits mark >> pure true else pure false

unfoldable pub run_script : Crypto → Database → Script → M Bool
unfolding perform checkpoint checkpoint_commit checkpoint_revert
run_script crypto db finished = pure true
run_script crypto db (act a rest) = do
  ok ← perform crypto db a
  let go_on = run_script crypto db rest
  if ok then go_on else pure false
run_script crypto db (call commits callee rest) = do
  ok ← enclose commits (run_script crypto db callee)
  let go_on = run_script crypto db rest
  if ok then go_on else pure false

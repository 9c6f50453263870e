-- ===== src/State/Defs.antt =====
-- `EvmState`, `Account`, `AccountInfo`, `AccountStatus` and `EvmStorageSlot` with their methods.
-- A `HashMap` whose size is never read is a function; the balances, whose size
-- `AccountInfo::is_empty` reads, are an association list.
use sabvm.Prelude.{
  ℕ, Bool, true, false, not, ◌&&◌, ◌||◌, List, [], ◌∷◌, Option, none, some, ◌==◌, if◌then◌else◌,
  length, wrapping_add, wrapping_sub, saturating_add, saturating_sub,
}

-- 160-bit addresses and 256-bit words.
abbrev pub Address : Type 0
Address = ℕ

abbrev pub U256 : Type 0
U256 = ℕ

-- `BASE_TOKEN_ID`, `PRECOMPILE3`, `KECCAK_EMPTY`
abbrev pub base_token_id : U256
base_token_id = 0

abbrev pub precompile3 : Address
precompile3 = 3

abbrev pub keccak_empty : U256
keccak_empty = 0xc5d2460186f7233c927e7db2dcc703c0e500b653ca82273b7bfad8045d85a470

-- The original bytes of a bytecode.
abbrev pub Bytecode : Type 0
Bytecode = List ℕ

-- `Bytecode::is_empty`: the length of the original bytes is zero.
unfoldable pub bytecode_is_empty : Bytecode → Bool
bytecode_is_empty code = length code == 0

-- `HashMap<U256, U256>`
abbrev pub TokenBalances : Type 0
TokenBalances = List (U256 × U256)

abbrev pub lookup : U256 → TokenBalances → Option U256
lookup k [] = none
lookup k ((j, v) ∷ m) = if k == j then some v else lookup k m

abbrev pub insert : U256 → U256 → TokenBalances → TokenBalances
insert k v [] = (k, v) ∷ []
insert k v ((j, w) ∷ m) = if k == j then (k, v) ∷ m else (j, w) ∷ insert k v m

abbrev pub is_some {ℓ} : {A : Type ℓ} → Option A → Bool
is_some none = false
is_some (some a) = true

abbrev pub unwrap_or {ℓ} : {A : Type ℓ} → A → Option A → A
unwrap_or d none = d
unwrap_or d (some a) = a

pub record AccountInfo : Type 0 where
  pub balances : TokenBalances
  pub nonce : ℕ
  pub code_hash : U256
  pub code : Option Bytecode

-- `AccountInfo::default`
abbrev pub default_info : AccountInfo
default_info = record { balances = []; nonce = 0; code_hash = keccak_empty; code = some [] }

unfoldable pub get_balance : U256 → AccountInfo → U256
get_balance token_id info = unwrap_or 0 (lookup token_id info.balances)

unfoldable pub get_base_balance : AccountInfo → U256
get_base_balance info = get_balance base_token_id info

unfoldable pub set_balance : U256 → U256 → AccountInfo → AccountInfo
set_balance token_id balance info = record info { balances = insert token_id balance info.balances }

unfoldable pub set_base_balance : U256 → AccountInfo → AccountInfo
set_base_balance balance info = set_balance base_token_id balance info

unfoldable pub increase_balance : U256 → U256 → AccountInfo → AccountInfo
increase_balance token_id value info =
    set_balance token_id (wrapping_add (get_balance token_id info) value) info

unfoldable pub decrease_balance : U256 → U256 → AccountInfo → AccountInfo
decrease_balance token_id balance info =
    set_balance token_id (wrapping_sub (get_balance token_id info) balance) info

unfoldable pub increase_base_balance : U256 → AccountInfo → AccountInfo
increase_base_balance value info = increase_balance base_token_id value info

unfoldable pub decrease_base_balance : U256 → AccountInfo → AccountInfo
decrease_base_balance balance info = decrease_balance base_token_id balance info

unfoldable pub increase_balance_saturating : U256 → U256 → AccountInfo → AccountInfo
increase_balance_saturating token_id value info =
    set_balance token_id (saturating_add (get_balance token_id info) value) info

unfoldable pub decrease_balance_saturating : U256 → U256 → AccountInfo → AccountInfo
decrease_balance_saturating token_id balance info =
    set_balance token_id (saturating_sub (get_balance token_id info) balance) info

unfoldable pub is_empty_code_hash : AccountInfo → Bool
is_empty_code_hash info = info.code_hash == keccak_empty

unfoldable pub only_has_base_balance : AccountInfo → Bool
only_has_base_balance info =
    length info.balances == 1 && is_some (lookup base_token_id info.balances)

unfoldable pub is_base_balance_zero : AccountInfo → Bool
unfolding get_base_balance get_balance
is_base_balance_zero info = get_base_balance info == 0

-- `AccountInfo::is_empty`
unfoldable pub is_empty : AccountInfo → Bool
unfolding is_empty_code_hash only_has_base_balance is_base_balance_zero
is_empty info =
    let code_empty = is_empty_code_hash info || info.code_hash == 0 in
    code_empty
    && (length info.balances == 0 || (only_has_base_balance info && is_base_balance_zero info))
    && info.nonce == 0

unfoldable pub exists : AccountInfo → Bool
unfolding is_empty
exists info = not (is_empty info)

-- The flags of `AccountStatus`; no flag set is `Loaded`.
pub record AccountStatus : Type 0 where
  pub created : Bool
  pub self_destructed : Bool
  pub touched : Bool
  pub loaded_as_not_existing : Bool

abbrev pub loaded : AccountStatus
loaded = record {
  created = false;
  self_destructed = false;
  touched = false;
  loaded_as_not_existing = false;
}

pub record EvmStorageSlot : Type 0 where
  pub original_value : U256
  pub present_value : U256

-- `EvmStorageSlot::new`, `is_changed`
abbrev pub new_slot : U256 → EvmStorageSlot
new_slot original = record { original_value = original; present_value = original }

unfoldable pub is_changed : EvmStorageSlot → Bool
is_changed slot = not (slot.original_value == slot.present_value)

abbrev pub EvmStorage : Type 0
EvmStorage = U256 → Option EvmStorageSlot

pub record Account : Type 0 where
  pub info : AccountInfo
  pub storage : EvmStorage
  pub status : AccountStatus

-- `Account::new_not_existing`, and `Account::from` an `AccountInfo`.
abbrev pub new_not_existing : Account
new_not_existing = record {
  info = default_info;
  storage = λ _. none;
  status = record loaded { loaded_as_not_existing = true };
}

abbrev pub from_info : AccountInfo → Account
from_info info = record { info = info; storage = λ _. none; status = loaded }

unfoldable pub mark_selfdestruct : Account → Account
mark_selfdestruct acc = record acc { status = record (acc.status) { self_destructed = true } }

unfoldable pub unmark_selfdestruct : Account → Account
unmark_selfdestruct acc = record acc { status = record (acc.status) { self_destructed = false } }

unfoldable pub mark_touch : Account → Account
mark_touch acc = record acc { status = record (acc.status) { touched = true } }

unfoldable pub unmark_touch : Account → Account
unmark_touch acc = record acc { status = record (acc.status) { touched = false } }

unfoldable pub mark_created : Account → Account
mark_created acc = record acc { status = record (acc.status) { created = true } }

unfoldable pub unmark_created : Account → Account
unmark_created acc = record acc { status = record (acc.status) { created = false } }

-- A map with one key set or removed.
abbrev pub update {ℓ} : {A : Type ℓ} → (ℕ → A) → ℕ → A → ℕ → A
update f k v j = if j == k then v else f j

pub record EvmState : Type 0 where
  pub accounts : Address → Option Account
  pub token_ids : List U256

-- `HashMap<(Address, U256), U256>`
abbrev pub TransientStorage : Type 0
TransientStorage = Address → U256 → Option U256

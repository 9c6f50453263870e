-- ===== src/Tests/Bundle.antt =====
-- An update of an account of the bundle and its revert, at a concrete input.
use sabvm.Prelude.{true, ℕ, false, [], ◌∷◌, some, ◌≡◌, inl, inr, refl, ◌==◌, if◌then◌else◌}
use sabvm.State.{is_some, U256, AccountInfo, keccak_empty}
use sabvm.Bundle.Slots.{new_slot, revert_to_value}
use sabvm.Bundle.Account.{
  BundleAccount, TransitionAccount, AccountRevert, loaded, changed, destroyed, destroyed_again,
  revert_to, revert,
}
use sabvm.Bundle.Update.{update_and_create_revert}
use sabvm.Bundle.Cache.{CacheAccount}
use sabvm.Bundle.Cache.Transitions.{change_to, run_cache_op, update_and_create_revert-run_cache_op}
use sabvm.Bundle.Undone.{IsRestored, IsWellFormed, FitsAccount}
use sabvm.Bundle.Undone.Cases.{revert-update}

abbrev info_with : ℕ → AccountInfo
info_with nonce = record {
  balances = (0, 100) ∷ [];
  nonce = nonce;
  code_hash = keccak_empty;
  code = some [];
}

abbrev database : U256 → U256
database slot = if slot == 2 then 9 else 0

abbrev before : BundleAccount
before = record {
  info = some (info_with 1);
  original_info = some (info_with 1);
  storage = (1, new_slot 5) ∷ [];
  status = loaded;
}

-- The nonce and two slots change, one of which the account had not read.
abbrev transition : TransitionAccount
transition = record {
  info = some (info_with 2);
  status = changed;
  previous_info = some (info_with 1);
  previous_status = loaded;
  storage =
      (1, record { previous_or_original_value = 5; present_value = 7 })
      ∷ (2, record { previous_or_original_value = 9; present_value = 3 })
      ∷ [];
  storage_was_destroyed = false;
}

abbrev after : BundleAccount
after = record {
  info = some (info_with 2);
  original_info = some (info_with 1);
  storage =
      (1, record { previous_or_original_value = 5; present_value = 7 })
      ∷ (2, record { previous_or_original_value = 9; present_value = 3 })
      ∷ [];
  status = changed;
}

abbrev undo : AccountRevert
undo = record {
  account = revert_to (info_with 1);
  storage = (1, revert_to_value 5) ∷ (2, revert_to_value 9) ∷ [];
  previous_status = loaded;
  wipe_storage = false;
}

update-before : update_and_create_revert transition before ≡ some (after, some undo)
unfolding update_and_create_revert
update-before = refl

before-IsWellFormed : IsWellFormed before
before-IsWellFormed = record {
  nobody = λ e. absurd cc;
  somebody = λ e. (info_with 1, refl);
  no_slots = λ e. absurd cc;
}

transition-FitsAccount : FitsAccount database transition before
unfolding sabvm.Bundle.Values.value_with sabvm.Bundle.Account.is_storage_known
transition-FitsAccount = record {
  previous = λ e. (refl, (refl, tt));
  destroys = λ e. elim e [ inl h ↦ absurd cc | inr h ↦ absurd cc ];
}

revert-update_example : IsRestored database before (revert undo after).0
revert-update_example =
    revert-update database transition before after undo before-IsWellFormed transition-FitsAccount
      update-before

-- The same change, made by an account of the cache.
abbrev cached : CacheAccount
cached = record {
  account = some (record { info = info_with 1; storage = (1, 5) ∷ [] });
  status = loaded;
}

abbrev cached_after : CacheAccount
cached_after = record {
  account = some (record { info = info_with 2; storage = (1, 7) ∷ (2, 3) ∷ (1, 5) ∷ [] });
  status = changed;
}

run_cache_op-cached :
    run_cache_op (change_to (info_with 2) transition.storage) cached
    ≡ some (cached_after, some transition)
unfolding run_cache_op sabvm.Bundle.Cache.change sabvm.Bundle.Cache.has_no_code_and_nonce
run_cache_op-cached = refl

update_and_create_revert-run_cache_op_example :
    is_some (update_and_create_revert transition before) ≡ true
update_and_create_revert-run_cache_op_example =
    update_and_create_revert-run_cache_op (change_to (info_with 2) transition.storage) cached
      cached_after transition before run_cache_op-cached refl refl

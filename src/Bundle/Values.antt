-- ===== src/Bundle/Values.antt =====
-- Proofs about the present values of the slots after an update and its reverts.
use sabvm.Prelude.{
  true, false, [], ◌∷◌, Option, none, some, ◌≡◌, ◌⊎◌, inl, inr, refl, sym, ap, ◌∙◌, ◌==◌,
  if◌then◌else◌, arith, ==-cases, Bool-cases, Option-cases, ◌≢◌, ⊤,
}
use sabvm.State.{U256, unwrap_or, is_some}
use sabvm.Bundle.Slots.{
  StorageSlot, new_slot, is_changed, Slots, Storage, RevertToSlot, revert_to_value, destroyed_slot,
  find, remove, set_present, extend_storage, previous_storage_from_update, present_values,
  insert_destroyed, revert_slots, zero_present,
}

-- The present value of a slot that there is.
abbrev pub value_of : Option StorageSlot → Option U256
value_of none = none
value_of (some s) = some s.present_value

unfoldable pub present : U256 → Storage → Option U256
present j m = value_of (find j m)

present-set_present :
    (j k : U256) (s : StorageSlot) (v : U256) (m : Storage)
    → present j (set_present k s v m) ≡ (if j == k then some v else present j m)
unfolding present set_present
present-set_present j k s v [] = ground arith
present-set_present j k s v ((i, t) ∷ m) = ground (arith, present-set_present j k s v m)

module _ {A : Type 0} where
  pub find-remove :
      (j k : U256) (m : Slots A) → find j (remove k m) ≡ (if j == k then none else find j m)
  unfolding remove
  find-remove j k [] = ground arith
  find-remove j k ((i, t) ∷ m) = ground (arith, find-remove j k m)

pub present-remove :
    (j k : U256) (m : Storage) → present j (remove k m) ≡ (if j == k then none else present j m)
unfolding present
present-remove j k m = elim (Bool-cases (j == k)) [
  | inl e ↦
      ap value_of (find-remove j k m ∙ ap (λ b. if b then none else find j m) e)
      ∙ sym (ap (λ b. if b then none else present j m) e)
  | inr e ↦
      ap value_of (find-remove j k m ∙ ap (λ b. if b then none else find j m) e)
      ∙ sym (ap (λ b. if b then none else present j m) e)
]

-- The present value after the reverts of slots.
abbrev pub reverted : Option RevertToSlot → Option U256 → Option U256
reverted none old = old
reverted (some (revert_to_value v)) old = some v
reverted (some destroyed_slot) old = none

pub present-revert_slots :
    (j : U256) (r : Slots RevertToSlot) (m : Storage)
    → present j (revert_slots r m) ≡ reverted (find j r) (present j m)
unfolding revert_slots
present-revert_slots j [] m = refl
present-revert_slots j ((k, revert_to_value v) ∷ r) m = elim (Bool-cases (j == k)) [
  | inl e ↦ present-set_present j k (new_slot v) v (revert_slots r m) ∙ rw e refl
  | inr e ↦
      present-set_present j k (new_slot v) v (revert_slots r m) ∙ rw e (present-revert_slots j r m)
]
present-revert_slots j ((k, destroyed_slot) ∷ r) m = elim (Bool-cases (j == k)) [
  | inl e ↦ present-remove j k (revert_slots r m) ∙ rw e refl
  | inr e ↦ present-remove j k (revert_slots r m) ∙ rw e (present-revert_slots j r m)
]

abbrev pub or_else : Option U256 → Option U256 → Option U256
or_else none other = other
or_else (some v) other = some v

pub present-extend_storage :
    (j : U256) (m u : Storage)
    → present j (extend_storage m u) ≡ or_else (present j u) (present j m)
unfolding extend_storage present
present-extend_storage j m [] = refl
present-extend_storage j m ((k, s) ∷ u) = elim (Bool-cases (j == k)) [
  | inl e ↦ present-set_present j k s s.present_value (extend_storage m u) ∙ rw e refl
  | inr e ↦
      present-set_present j k s s.present_value (extend_storage m u)
      ∙ rw e (present-extend_storage j m u)
]

abbrev to_revert : Option U256 → Option RevertToSlot
to_revert none = none
to_revert (some v) = some (revert_to_value v)

find-present_values : (j : U256) (m : Storage) → find j (present_values m) ≡ to_revert (present j m)
unfolding present_values present
find-present_values j [] = refl
find-present_values j ((k, s) ∷ m) = elim (Bool-cases (j == k)) [
  | inl e ↦ rw e refl
  | inr e ↦ rw e (find-present_values j m)
]

true-false : true ≢ false
true-false e = cc

some-is_some : {o : Option RevertToSlot} {x : RevertToSlot} → o ≡ some x → is_some o ≡ true
some-is_some e = ap is_some e

insert_keeps :
    (j : U256) (u : Storage) (r : Slots RevertToSlot) {x : RevertToSlot}
    → find j r ≡ some x
    → find j (insert_destroyed u r) ≡ some x
unfolding insert_destroyed
insert_keeps j [] r h = h
insert_keeps j ((k, s) ∷ u) r h = elim (Bool-cases (is_some (find k (insert_destroyed u r)))) [
  | inl b ↦ rw b (insert_keeps j u r h)
  | inr b ↦ elim (==-cases j k) [
    | inl e ↦ absurd (
        true-false (
          sym (some-is_some (insert_keeps j u r h))
          ∙ ap (λ i. is_some (find i (insert_destroyed u r))) e
          ∙ b))
    | inr e ↦ rw (b, e) (insert_keeps j u r h)
  ]
]

-- A slot that had no value is taken away again, or was not touched.
insert_removes :
    (j : U256) (u : Storage) (r : Slots RevertToSlot)
    → find j r ≡ none
    → (find j (insert_destroyed u r) ≡ some destroyed_slot)
      ⊎ ((find j (insert_destroyed u r) ≡ none) × (find j u ≡ none))
unfolding insert_destroyed
insert_removes j [] r h = inr (h, refl)
insert_removes j ((k, s) ∷ u) r h = elim (Bool-cases (j == k)) [
  | inl e ↦ elim (Bool-cases (is_some (find k (insert_destroyed u r)))) [
    | inl b ↦ elim (insert_removes j u r h) [
      | inl d ↦ inl (rw b d)
      | inr (n, f) ↦
          let p : j ≡ k = ground (arith, e) in
          absurd
            (true-false (sym b ∙ ap is_some (sym (ap (λ i. find i (insert_destroyed u r)) p) ∙ n)))
    ]
    | inr b ↦ inl (rw (b, e) refl)
  ]
  | inr e ↦ elim (Bool-cases (is_some (find k (insert_destroyed u r)))) [
    | inl b ↦ elim (insert_removes j u r h) [
      | inl d ↦ inl (rw b d)
      | inr (n, f) ↦ inr (rw b n, rw e f)
    ]
    | inr b ↦ elim (insert_removes j u r h) [
      | inl d ↦ inl (rw (b, e) d)
      | inr (n, f) ↦ inr (rw (b, e) n, rw e f)
    ]
  ]
]

pub present-restored :
    (j : U256) (m u m' : Storage)
    → present j m' ≡ present j u
    → present j (revert_slots (insert_destroyed u (present_values m)) m') ≡ present j m
unfolding present
present-restored j m u m' h =
    present-revert_slots j (insert_destroyed u (present_values m)) m'
    ∙ elim (Option-cases (present j m)) [
      | inr (v, e) ↦
          ap (λ o. reverted o (present j m'))
            (insert_keeps j u (present_values m) (find-present_values j m ∙ ap to_revert e))
          ∙ sym e
      | inl e ↦
          elim (insert_removes j u (present_values m) (find-present_values j m ∙ ap to_revert e)) [
            | inl d ↦ ap (λ o. reverted o (present j m')) d ∙ sym e
            | inr (n, f) ↦ ap (λ o. reverted o (present j m')) n ∙ h ∙ ap value_of f ∙ sym e
          ]
    ]

-- Every slot of the update has the value before it as its previous value.
abbrev pub AllPrevious : (U256 → U256) → Storage → Type 0
AllPrevious p [] = ⊤
AllPrevious p ((k, s) ∷ u) = (s.previous_or_original_value ≡ p k) × AllPrevious p u

unchanged :
    (s : StorageSlot) → is_changed s ≡ false → s.previous_or_original_value ≡ s.present_value
unfolding is_changed
unchanged s e = ground (arith, e)

-- A slot is reverted to that value, or it has it.
previous_cases :
    (p : U256 → U256) (j : U256) (u : Storage)
    → AllPrevious p u
    → (find j (previous_storage_from_update u) ≡ some (revert_to_value (p j)))
      ⊎ ((find j (previous_storage_from_update u) ≡ none)
          × ((present j u ≡ none) ⊎ (present j u ≡ some (p j))))
unfolding previous_storage_from_update is_changed present
previous_cases p j [] h = inr (refl, inl refl)
previous_cases p j ((k, s) ∷ u) (h, hs) = elim (Bool-cases (is_changed s)) [
  | inl c ↦ elim (Bool-cases (j == k)) [
    | inl e ↦
        let jk : j ≡ k = ground (arith, e) in
        inl (rw (c, e) (ap (λ v. some (revert_to_value v)) (h ∙ ap p (sym jk))))
    | inr e ↦ elim (previous_cases p j u hs) [
      | inl d ↦ inl (rw (c, e) d)
      | inr (n, q) ↦ inr (rw (c, e) n, rw e q)
    ]
  ]
  | inr c ↦ elim (previous_cases p j u hs) [
    | inl d ↦ inl (rw c d)
    | inr (n, q) ↦ elim (Bool-cases (j == k)) [
      | inl e ↦
          let jk : j ≡ k = ground (arith, e) in
          inr (rw c n, inr (rw e (ap some (sym (unchanged s c) ∙ h ∙ ap p (sym jk)))))
      | inr e ↦ inr (rw c n, rw e q)
    ]
  ]
]

-- The value of a slot, with the database's for one that is not there.
unfoldable pub value_with : (U256 → U256) → U256 → Storage → U256
unfolding present
value_with d j m = unwrap_or (d j) (present j m)

module _ (d : U256 → U256) (j : U256) (m u : Storage)
    (h : AllPrevious (λ k. value_with d k m) u) where
  reverted_value :
      (m' : Storage)
      → (present j u ≡ none → value_with d j m' ≡ value_with d j m)
      → (present j u ≡ some (value_with d j m) → value_with d j m' ≡ value_with d j m)
      → value_with d j (revert_slots (previous_storage_from_update u) m') ≡ value_with d j m
  unfolding value_with
  reverted_value m' absent there =
      ap (unwrap_or (d j)) (present-revert_slots j (previous_storage_from_update u) m')
      ∙ elim (previous_cases (λ k. value_with d k m) j u h) [
        | inl e ↦ ap (λ o. unwrap_or (d j) (reverted o (present j m'))) e
        | inr (n, q) ↦
            ap (λ o. unwrap_or (d j) (reverted o (present j m'))) n
            ∙ elim q [ inl e ↦ absent e | inr e ↦ there e ]
      ]

  pub extended_value :
      value_with d j (revert_slots (previous_storage_from_update u) (extend_storage m u))
      ≡ value_with d j m
  unfolding value_with
  extended_value =
      reverted_value (extend_storage m u)
        (λ e.
          ap (unwrap_or (d j)) (present-extend_storage j m u ∙ ap (λ o. or_else o (present j m)) e))
        (λ e.
          ap (unwrap_or (d j)) (present-extend_storage j m u ∙ ap (λ o. or_else o (present j m)) e))

  pub untouched_value :
      value_with d j (revert_slots (previous_storage_from_update u) m) ≡ value_with d j m
  untouched_value = reverted_value m (λ e. refl) (λ e. refl)

  pub replaced_value :
      m ≡ [] → value_with d j (revert_slots (previous_storage_from_update u) u) ≡ value_with d j m
  unfolding value_with present
  replaced_value z =
      reverted_value u (λ e. ap (unwrap_or (d j)) (e ∙ sym (ap (present j) z)))
        (λ e. ap (unwrap_or (d j)) e)

pub present-zero_present : (j : U256) (m : Storage) → unwrap_or 0 (present j (zero_present m)) ≡ 0
unfolding present zero_present
present-zero_present j [] = refl
present-zero_present j ((k, s) ∷ m) = elim (Bool-cases (j == k)) [
  | inl e ↦ rw e refl
  | inr e ↦ rw e (present-zero_present j m)
]

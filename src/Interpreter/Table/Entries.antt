-- ===== src/Interpreter/Table/Entries.antt =====
-- What is said of every entry of an opcode table.
use sabvm.Prelude.{
  ℕ, zero, suc, ◌+◌, ◌<◌, arith, [], ◌∷◌, ◌++◌, some, ◌≡◌, ◌≤◌, ◌==◌, inl, inr, Bool-cases,
  some_inj, subst, ⊤,
}
use sabvm.Interpreter.Machine.{Instruction}
use sabvm.Interpreter.Table.{Entries, numbered, fetch}

-- Every instruction of the entries has the property.
abbrev pub AllEntries : (Instruction → Type 0) → Entries → Type 0
AllEntries P [] = ⊤
AllEntries P ((opcode, k) ∷ entries) = P k × AllEntries P entries

infixr 5 ◌and◌
abbrev pub ◌and◌ : {A B : Type 0} → A → B → A × B
h and hs = (h, hs)

module _ (P : Instruction → Type 0) where
  pub numbered-AllEntries :
      (f : ℕ → Instruction) (opcode n count : ℕ)
      → ((m : ℕ) → n ≤ m → m < n + count → P (f m))
      → AllEntries P (numbered f opcode n count)
  unfolding numbered
  numbered-AllEntries f opcode n zero h = tt
  numbered-AllEntries f opcode n (suc count) h = (
    h n (omega arith) (omega arith),
    numbered-AllEntries f (opcode + 1) (n + 1) count λ m p q. h m (omega arith) (omega arith),
  )

  pub append-AllEntries :
      (xs ys : Entries) → AllEntries P xs → AllEntries P ys → AllEntries P (xs ++ ys)
  append-AllEntries [] ys h k = k
  append-AllEntries ((opcode, f) ∷ xs) ys (h, hs) k = (h, append-AllEntries xs ys hs k)

  pub fetch-AllEntries :
      (opcode : ℕ) (k : Instruction) (entries : Entries)
      → AllEntries P entries
      → fetch opcode entries ≡ some k
      → P k
  unfolding fetch
  fetch-AllEntries opcode k [] h e = cc
  fetch-AllEntries opcode k ((code, f) ∷ entries) (h, hs) e = elim (Bool-cases (opcode == code)) [
    | inl p ↦ subst P (some_inj (rw p at e)) h
    | inr p ↦ fetch-AllEntries opcode k entries hs (rw p at e)
  ]

-- ===== src/Interpreter/Code/Padding.antt =====
-- Proofs about the padding of the code: it has no jump destinations.
use sabvm.Prelude.{
  ℕ, zero, suc, ◌+◌, ◌<◌, ◌≤◌, true, List, [], ◌∷◌, ◌++◌, some, ◌≡◌, ◌↔◌, ◌⊎◌, inl, inr, sym,
  length, get_elem?, replicate, arith, some_inj,
}
use sabvm.State.{Address}
use sabvm.Journal.{TokenTransfer}
use sabvm.Interpreter.Code.{legacy_raw, jumpdest, is_valid_jump, new_contract}
use sabvm.Interpreter.Code.Jumps.{
  Reaches, here, there, width, IsDestination, IsByteList, get_elem?-lt, is_valid-analyze,
}

get_elem?-zeros : (k n op : ℕ) → get_elem? (replicate k 0) n ≡ some op → op ≡ 0
get_elem?-zeros zero n op e = absurd cc
get_elem?-zeros (suc k) zero op e = sym (some_inj e)
get_elem?-zeros (suc k) (suc n) op e = get_elem?-zeros k n op e

pub get_elem?-padded :
    (code : List ℕ) (k n op : ℕ)
    → get_elem? (code ++ replicate k 0) n ≡ some op
    → (get_elem? code n ≡ some op) ⊎ ((length code ≤ n) × (op ≡ 0))
get_elem?-padded [] k n op e = inr (omega arith, get_elem?-zeros k n op e)
get_elem?-padded (b ∷ code) k zero op e = inl e
get_elem?-padded (b ∷ code) k (suc n) op e = elim (get_elem?-padded code k n op e) [
  | inl h ↦ inl h
  | inr (h, z) ↦ inr (omega (arith, h), z)
]

pub get_elem?-append :
    (code rest : List ℕ) (n : ℕ) {op : ℕ}
    → get_elem? code n ≡ some op
    → get_elem? (code ++ rest) n ≡ some op
get_elem?-append [] rest n e = absurd cc
get_elem?-append (b ∷ code) rest zero e = e
get_elem?-append (b ∷ code) rest (suc n) e = get_elem?-append code rest n e

zeros-IsByteList : (k : ℕ) → IsByteList (replicate k 0)
zeros-IsByteList zero = tt
zeros-IsByteList (suc k) = (omega arith, zeros-IsByteList k)

padded-IsByteList : (code : List ℕ) (k : ℕ) → IsByteList code → IsByteList (code ++ replicate k 0)
padded-IsByteList [] k h = zeros-IsByteList k
padded-IsByteList (b ∷ code) k (h, hs) = (h, padded-IsByteList code k hs)

Reaches-le : {code : List ℕ} {a n : ℕ} → Reaches code a n → a ≤ n
Reaches-le (here n) = omega arith
Reaches-le (there a n op e r) = omega (arith, Reaches-le r)

Reaches-padded : (code rest : List ℕ) (a n : ℕ) → Reaches code a n → Reaches (code ++ rest) a n
Reaches-padded code rest a n (here m) = here m
Reaches-padded code rest a n (there b m op e r) =
    there a n op (get_elem?-append code rest a e) (Reaches-padded code rest (a + width op) n r)

Reaches-unpadded :
    (code : List ℕ) (k a n : ℕ)
    → n < length code
    → Reaches (code ++ replicate k 0) a n
    → Reaches code a n
Reaches-unpadded code k a n h (here m) = here m
Reaches-unpadded code k a n h (there b m op e r) = elim (get_elem?-padded code k a op e) [
  | inl f ↦ there a n op f (Reaches-unpadded code k (a + width op) n h r)
  | inr (l, z) ↦ absurd (omega (arith, Reaches-le r))
]

-- A jump in analysed code is valid exactly if it goes to an instruction of the original code, read
-- from its start without jumps, that is a jump destination; the data of a PUSH instruction and the
-- padding have none. The code is a list of bytes.
pub is_valid_jump-IsDestination :
    (code input : List ℕ) (target_address caller : Address) (call_values : List TokenTransfer)
    (pos : ℕ)
    → IsByteList code
    → (is_valid_jump pos (new_contract input (legacy_raw code) target_address caller call_values)
        ≡ true)
      ↔ IsDestination code pos
unfolding is_valid_jump new_contract
is_valid_jump-IsDestination code input target_address caller call_values pos bytes =
    let (to, from) =
      is_valid-analyze (code ++ replicate 33 0) pos (padded-IsByteList code 33 bytes) in
    (
      λ h.
          let (r, d) = to h in
          elim (get_elem?-padded code 33 pos jumpdest d) [
            | inl e ↦ (Reaches-unpadded code 33 0 pos (get_elem?-lt code pos e) r, e)
            | inr (l, z) ↦ absurd (omega (arith, z))
          ],
      λ (r, d). from (
        Reaches-padded code (replicate 33 0) 0 pos r,
        get_elem?-append code (replicate 33 0) pos d,
      ),
    )

-- ===== src/Gas/Refunds.antt =====
-- What a sequence of stores to one slot is charged and refunded.
use sabvm.Prelude.{
  ℕ, ◌+◌, ◌*◌, true, false, not, ◌&&◌, ◌≡◌, ◌≢◌, List, [], ◌∷◌, some, arith, ◌==◌, if◌then◌else◌,
}
use sabvm.Prelude.Int.{ℤ, pos, ◌+ℤ◌, ◌-ℤ◌, ◌≤ℤ◌, int_laws}
use sabvm.State.{U256, SpecId, enabled, istanbul}
use sabvm.Gas.Sstore.{sstore_clears_schedule, sstore_refund, sstore_cost}
use sabvm.Gas.Calc.{sload_cost}

-- What the counter holds for a slot that is cleared at present, and was not at first.
unfoldable pub cleared_credit : SpecId → U256 → U256 → ℕ
cleared_credit spec original current =
    if not (original == 0) && current == 0 then sstore_clears_schedule spec else 0

sstore_refund-le :
    (spec : SpecId) (original current new : U256)
    → enabled spec istanbul ≡ true
    → pos (cleared_credit spec original new)
      ≤ℤ pos (cleared_credit spec original current) +ℤ sstore_refund spec original current new
unfolding cleared_credit sstore_refund ◌+ℤ◌ ◌-ℤ◌
sstore_refund-le spec original current new h = ground arith

-- The refunds of storing the values one after another, and the last value.
unfoldable pub total_refund : SpecId → U256 → U256 → List U256 → ℤ
total_refund spec original current [] = pos 0
total_refund spec original current (new ∷ values) =
    sstore_refund spec original current new +ℤ total_refund spec original new values

abbrev pub last_value : U256 → List U256 → U256
last_value current [] = current
last_value current (new ∷ values) = last_value new values

total_refund-credit :
    (spec : SpecId) (original current : U256) (values : List U256)
    → enabled spec istanbul ≡ true
    → pos (cleared_credit spec original (last_value current values))
      ≤ℤ pos (cleared_credit spec original current) +ℤ total_refund spec original current values
unfolding total_refund
total_refund-credit spec original current [] h = omega int_laws
total_refund-credit spec original current (new ∷ values) h = omega (
  int_laws,
  sstore_refund-le spec original current new h,
  total_refund-credit spec original new values h,
)

-- From Istanbul on, the sum of the refunds of any sequence of stores to a slot, the first of
-- which finds its original value, is not negative, and at least the clearing refund if the slot
-- is cleared at the end and was not at first.
pub total_refund-ge-credit :
    (spec : SpecId) (original : U256) (values : List U256)
    → enabled spec istanbul ≡ true
    → pos (cleared_credit spec original (last_value original values))
      ≤ℤ total_refund spec original original values
total_refund-ge-credit spec original values h =
    omega (int_laws, no_credit, total_refund-credit spec original original values h)
  where
    no_credit : cleared_credit spec original original ≡ 0
    no_credit = unfold cleared_credit in ground arith

-- From Istanbul on, changing a slot that holds its original value to another and changing it
-- back, both warm and with more gas than the stipend left, costs after the refunds two reads of a
-- warm slot.
pub sstore_cost_restore :
    (spec : SpecId) (original new gas gas' : ℕ) {first second : ℕ}
    → enabled spec istanbul ≡ true
    → new ≢ original
    → sstore_cost spec original original new gas false ≡ some first
    → sstore_cost spec original new original gas' false ≡ some second
    → pos (first + second)
      ≡ sstore_refund spec original original new
        +ℤ sstore_refund spec original new original
        +ℤ pos (2 * sload_cost spec false)
unfolding sstore_cost sstore_refund sload_cost ◌+ℤ◌ ◌-ℤ◌
sstore_cost_restore spec original new gas gas' h ne e e' = ground arith

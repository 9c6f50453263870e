-- ===== src/NativeTokens/Bytes.antt =====
-- Reading words from the front of the input (crates/primitives/src/utilities.rs, bytes_parsing).
-- `none` is `BytesParsingError::InvalidInput`; a result comes with the input that is left.
use sabvm.Prelude.{
  ℕ, zero, suc, ◌%◌, ◌^◌, List, [], ◌∷◌, Option, none, some, ltb, if◌then◌else◌, length, take, drop,
  from_be_bytes,
}
use sabvm.State.{Address, U256}

abbrev pub Bytes : Type 0
Bytes = List ℕ

abbrev pub Parser : Type 0 → Type 0
Parser A = Bytes → Option (A × Bytes)

unfoldable pub consume_bytes_from : ℕ → Parser Bytes
consume_bytes_from no_bytes input =
    if ltb (length input) no_bytes then none else some (take no_bytes input, drop no_bytes input)

-- The number of the next `n` bytes, big-endian.
unfoldable pub consume_number : ℕ → Parser ℕ
unfolding consume_bytes_from from_be_bytes
consume_number n input = elim (consume_bytes_from n input) [
  | none ↦ none
  | some (bytes, rest) ↦ some (from_be_bytes bytes, rest)
]

unfoldable pub consume_u32_from : Parser ℕ
unfolding consume_number
consume_u32_from = consume_number 4

unfoldable pub consume_u256_from : Parser U256
unfolding consume_number
consume_u256_from = consume_number 32

-- `Address::from_word` keeps the last 20 bytes of a word.
unfoldable pub consume_address_from : Parser Address
unfolding consume_number
consume_address_from input = elim (consume_number 32 input) [
  | none ↦ none
  | some (word, rest) ↦ some (word % 2 ^ 160, rest)
]

-- `for _ in 0..count`: the words that follow, with the first failure ending the loop.
unfoldable pub consume_words : ℕ → Parser (List U256)
unfolding consume_u256_from
consume_words zero input = some ([], input)
consume_words (suc count) input = elim (consume_u256_from input) [
  | none ↦ none
  | some (word, rest) ↦ elim (consume_words count rest) [
    | none ↦ none
    | some (words, rest') ↦ some (word ∷ words, rest')
  ]
]

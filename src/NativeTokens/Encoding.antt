-- ===== src/NativeTokens/Encoding.antt =====
-- The bytes that `getCallValues` returns, read back.
use sabvm.Prelude.{
  ℕ, suc, ◌+◌, ◌*◌, ◌%◌, ◌<◌, false, List, [], ◌∷◌, ◌++◌, Option, none, some, ◌≡◌, refl, ap, sym,
  ◌∙◌, arith, ltb, length, length-append, drop, take-append, drop-append, be_bytes, from_be_bytes,
  from_be_bytes_acc, u256_mod, append_assoc,
}
use mathlib.Core.List.{append-nil}
use sabvm.Prelude.Bytes.{length-be_bytes, from_be_bytes_acc-be_bytes}
use sabvm.State.{U256}
use sabvm.Journal.{TokenTransfer}
use sabvm.NativeTokens.Bytes.{Bytes}
use sabvm.NativeTokens.{
  consume_bytes_from, consume_number, consume_u256_from, consume_words, encode_ids, encode_amounts,
  encode_call_values,
}

consume_bytes-append :
    (bs rest : Bytes) → consume_bytes_from (length bs) (bs ++ rest) ≡ some (bs, rest)
unfolding consume_bytes_from
consume_bytes-append bs rest = rw (enough, take-append bs rest, drop-append bs rest)
  where
    enough : ltb (length (bs ++ rest)) (length bs) ≡ false
    enough = ground (arith, length-append bs rest)

-- A word is read back from its bytes.
consume_u256-be_bytes :
    (x : U256) (rest : Bytes)
    → x < u256_mod
    → consume_u256_from (be_bytes 32 x ++ rest) ≡ some (x, rest)
unfolding consume_u256_from consume_number from_be_bytes
consume_u256-be_bytes x rest h =
    ap answer (
      ap (λ n. consume_bytes_from n (be_bytes 32 x ++ rest)) (sym (length-be_bytes 32 x))
      ∙ consume_bytes-append (be_bytes 32 x) rest)
    ∙ ap (λ y. some (y, rest)) (from_be_bytes_acc-be_bytes 32 x h)
  where
    answer : Option (Bytes × Bytes) → Option (U256 × Bytes)
    answer o = elim o [ none ↦ none | some (bytes, left) ↦ some (from_be_bytes_acc 0 bytes, left) ]

abbrev pub get_ids : List TokenTransfer → List U256
get_ids [] = []
get_ids (t ∷ ts) = t.id ∷ get_ids ts

abbrev pub get_amounts : List TokenTransfer → List U256
get_amounts [] = []
get_amounts (t ∷ ts) = t.amount ∷ get_amounts ts

-- The ids and the amounts are words.
pub data AllWords : List TokenTransfer → Type 0 where
  no_words : AllWords []
  words :
      {t : TokenTransfer} {ts : List TokenTransfer}
      → t.id < u256_mod
      → t.amount < u256_mod
      → AllWords ts
      → AllWords (t ∷ ts)

module _ (word : U256) (left : Bytes) where
  consume_words-cons :
      (n : ℕ) (ws : List U256) (rest : Bytes)
      → word < u256_mod
      → consume_words n left ≡ some (ws, rest)
      → consume_words (suc n) (be_bytes 32 word ++ left) ≡ some (word ∷ ws, rest)
  unfolding consume_words
  consume_words-cons n ws rest small h =
      ap first (consume_u256-be_bytes word left small) ∙ ap (others word) h
    where
      others : U256 → Option (List U256 × Bytes) → Option (List U256 × Bytes)
      others w o = elim o [ none ↦ none | some (ws', left') ↦ some (w ∷ ws', left') ]

      first : Option (U256 × Bytes) → Option (List U256 × Bytes)
      first o = elim o [ none ↦ none | some (w, left') ↦ others w (consume_words n left') ]

consume_words-encode_ids :
    (ts : List TokenTransfer) (rest : Bytes)
    → AllWords ts
    → consume_words (length ts) (encode_ids ts ++ rest) ≡ some (get_ids ts, rest)
consume_words-encode_ids [] rest no_words = unfold consume_words in refl
consume_words-encode_ids (t ∷ ts) rest (words hi ha hs) =
    ap (consume_words (suc (length ts))) (append_assoc (be_bytes 32 t.id) (encode_ids ts) rest)
    ∙ consume_words-cons t.id (encode_ids ts ++ rest) (length ts) (get_ids ts) rest hi
        (consume_words-encode_ids ts rest hs)

consume_words-encode_amounts :
    (ts : List TokenTransfer) (rest : Bytes)
    → AllWords ts
    → consume_words (length ts) (encode_amounts ts ++ rest) ≡ some (get_amounts ts, rest)
consume_words-encode_amounts [] rest no_words = unfold consume_words in refl
consume_words-encode_amounts (t ∷ ts) rest (words hi ha hs) =
    ap (consume_words (suc (length ts)))
      (append_assoc (be_bytes 32 t.amount) (encode_amounts ts) rest)
    ∙ consume_words-cons t.amount (encode_amounts ts ++ rest) (length ts) (get_amounts ts) rest ha
        (consume_words-encode_amounts ts rest hs)

length-encode_ids : (ts : List TokenTransfer) → length (encode_ids ts) ≡ length ts * 32
length-encode_ids [] = refl
length-encode_ids (t ∷ ts) =
    length-append (be_bytes 32 t.id) (encode_ids ts)
    ∙ omega (arith, length-be_bytes 32 t.id, length-encode_ids ts)

-- An independent reading of the returned data, as the ABI has it: the two words in front are the
-- offsets of the two arrays, and an array is its length and its words.
infixl 5 ◌>>=◌
abbrev ◌>>=◌ : {A B : Type 0} → Option A → (A → Option B) → Option B
none >>= f = none
some a >>= f = f a

read_array : Bytes → ℕ → Option (List U256)
read_array bytes offset = consume_u256_from (drop offset bytes) >>= λ (count, left).
    consume_words count left >>= λ (ws, _). some ws

pub read_call_values : Bytes → Option (List U256 × List U256)
read_call_values bytes = consume_u256_from bytes >>= λ (ids_offset, left).
    consume_u256_from left >>= λ (amounts_offset, _). read_array bytes ids_offset >>= λ ids.
    read_array bytes amounts_offset >>= λ amounts. some (ids, amounts)

drop_front : (front rest : Bytes) (n : ℕ) → length front ≡ n → drop n (front ++ rest) ≡ rest
drop_front front rest n h = ap (λ m. drop m (front ++ rest)) (sym h) ∙ drop-append front rest

read_array_lem :
    (front rest tail : Bytes) (n count : ℕ) (ws : List U256)
    → length front ≡ n
    → count < u256_mod
    → consume_words count rest ≡ some (ws, tail)
    → read_array (front ++ (be_bytes 32 count ++ rest)) n ≡ some ws
unfolding read_array
read_array_lem front rest tail n count ws l small h =
    ap (λ b. counted (consume_u256_from b)) (drop_front front (be_bytes 32 count ++ rest) n l)
    ∙ ap counted (consume_u256-be_bytes count rest small)
    ∙ ap (λ o. o >>= λ (ws', _). some ws') h
  where
    counted : Option (U256 × Bytes) → Option (List U256)
    counted o = o >>= λ (c, left). consume_words c left >>= λ (ws', _). some ws'

bind_some : {A B : Type 0} (o : Option A) (a : A) (f : A → Option B) → o ≡ some a → (o >>= f) ≡ f a
bind_some o a f h = ap (λ p. p >>= f) h

module _ (ts : List TokenTransfer) (ws : AllWords ts) (fits : 96 + length ts * 32 < u256_mod) where
  offset : ℕ
  offset = (64 + 32 + length ts * 32) % u256_mod

  tail : Bytes
  tail = be_bytes 32 (length ts) ++ encode_amounts ts

  body : Bytes
  body = be_bytes 32 (length ts) ++ (encode_ids ts ++ tail)

  read_ids : read_array (be_bytes 32 64 ++ (be_bytes 32 offset ++ body)) 64 ≡ some (get_ids ts)
  unfolding offset body tail
  read_ids =
      ap (λ b. read_array b 64) (sym (append_assoc (be_bytes 32 64) (be_bytes 32 offset) body))
      ∙ read_array_lem (be_bytes 32 64 ++ be_bytes 32 offset) (encode_ids ts ++ tail) tail 64
          (length ts) (get_ids ts)
          (length-append (be_bytes 32 64) (be_bytes 32 offset)
            ∙ omega (arith, length-be_bytes 32 64, length-be_bytes 32 offset))
          (omega (arith, fits)) (consume_words-encode_ids ts tail ws)

  front : Bytes
  front = be_bytes 32 64 ++ (be_bytes 32 offset ++ (be_bytes 32 (length ts) ++ encode_ids ts))

  length-front : length front ≡ offset
  unfolding front offset
  length-front = omega (
    arith,
    fits,
    length-append (be_bytes 32 64)
        (be_bytes 32 offset ++ (be_bytes 32 (length ts) ++ encode_ids ts)),
    length-append (be_bytes 32 offset) (be_bytes 32 (length ts) ++ encode_ids ts),
    length-append (be_bytes 32 (length ts)) (encode_ids ts),
    length-be_bytes 32 64,
    length-be_bytes 32 offset,
    length-be_bytes 32 (length ts),
    length-encode_ids ts,
  )

  split : be_bytes 32 64 ++ (be_bytes 32 offset ++ body) ≡ front ++ tail
  unfolding body front
  split = simp append_assoc

  read_amounts :
      read_array (be_bytes 32 64 ++ (be_bytes 32 offset ++ body)) offset ≡ some (get_amounts ts)
  unfolding tail
  read_amounts =
      ap (λ b. read_array b offset) split
      ∙ read_array_lem front (encode_amounts ts) [] offset (length ts) (get_amounts ts) length-front
          (omega (arith, fits))
          (ap (consume_words (length ts)) (sym (append-nil (encode_amounts ts)))
            ∙ consume_words-encode_amounts ts [] ws)

  -- The ids and the amounts are read back from the data.
  pub read_call_values-encode :
      read_call_values (encode_call_values ts) ≡ some (get_ids ts, get_amounts ts)
  unfolding read_call_values encode_call_values offset body tail
  read_call_values-encode =
      bind_some _ (64, be_bytes 32 offset ++ body) _
        (consume_u256-be_bytes 64 (be_bytes 32 offset ++ body) (omega arith))
      ∙ bind_some _ (offset, body) _ (consume_u256-be_bytes offset body (omega arith))
      ∙ bind_some _ (get_ids ts) _ read_ids
      ∙ bind_some _ (get_amounts ts) _ read_amounts

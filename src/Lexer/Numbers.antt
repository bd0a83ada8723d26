-- ===== src/Lexer/Numbers.antt =====
-- src/lexer.rs: the reading of numbers, on a 64-bit target other than wasm32. Each loop reads a
-- character in every round but its last.
pub mod Progress
use cddl.Prelude.{
  ℕ, zero, suc, ◌+◌, ◌-◌, ◌%◌, Bool, true, false, not, ◌&&◌, ◌||◌, Option, none, some, List, [],
  ◌∷◌, Text, ◌==◌, if◌then◌else◌, length, get_elem?, is_none,
}
use cddl.Prelude.Int.{ℤ}
use cddl.Prelude.Decimal.{is_digit, parse_usize, parse_isize}
use cddl.Token.{F64, Usize, Value, Token}
use cddl.Lexer.Chars.{as_bytes, is_hexdigit}
use cddl.Lexer.State.{
  Externals, LexerErrorType, lexer, parse_int, parse_float, parse_hexf, Lexer, Step, ok, err, panic,
  out_of_fuel, ◌>>=◌, ◌>>◌, pure, fail, peek_char, get_slice, read_char, invalid_hex_float,
  invalid_exponent,
}

module _ (x : Externals) where
  open x use {MultiPeek, multipeek_peek, parse_f64, parse_hexf64, f64_as_isize, f64_as_usize}

  -- `self.multipeek.peek()`, which moves the peeking cursor.
  abbrev pub peek_multi : Lexer MultiPeek → Step MultiPeek (Option (ℕ × ℕ))
  peek_multi s = let (item, m) = multipeek_peek s.multipeek in ok item (record s { multipeek = m })

  -- `.map_err(..)?` on a parser's answer.
  abbrev pub or_fail : {A : Type 0} → LexerErrorType → Option A → Lexer MultiPeek → Step MultiPeek A
  or_fail e none = fail e
  or_fail e (some a) = pure a

  -- Reads while the characters pass the test; the offset of the last one, or else the given offset.
  unfoldable pub read_while : (ℕ → Bool) → ℕ → ℕ → Lexer MultiPeek → Step MultiPeek ℕ
  read_while test zero end_index s = out_of_fuel
  read_while test (suc f) end_index s = elim (peek_char s) [
    | none ↦ ok end_index s
    | some (i, c) ↦
        if test c then (read_char x >>= (λ (e, d). read_while test f e)) s else ok end_index s
  ]

  unfoldable pub read_number : ℕ → Lexer MultiPeek → Step MultiPeek (ℕ × Usize)
  unfolding read_while
  read_number idx = (λ s. read_while is_digit (suc (length s.input)) idx s) >>= (λ end_index.
      get_slice idx (end_index + 1)
      >>= (λ t. or_fail parse_int (parse_usize t) >>= (λ n. pure (end_index, n))))

  -- Whether the next character can begin an exponent; at the end of the input it is not tested.
  abbrev pub starts_exponent : Lexer MultiPeek → Bool
  starts_exponent s = elim (peek_char s) [
    | none ↦ true
    | some (i, c) ↦ c == b'-' || c == b'+' || is_digit c
  ]

  unfoldable pub read_exponent : ℕ → Lexer MultiPeek → Step MultiPeek (ℕ × Text)
  unfolding read_while
  read_exponent idx s =
      if starts_exponent s
      then ((λ t. read_while is_digit (suc (length t.input)) idx t)
            >>= (λ end_index. get_slice idx (end_index + 1) >>= (λ t. pure (end_index, t))))
          s
      else fail (lexer invalid_exponent) s

  unfoldable pub read_hexdigit : ℕ → Lexer MultiPeek → Step MultiPeek (ℕ × Text)
  unfolding read_while
  read_hexdigit idx =
      (λ s. read_while is_hexdigit (suc (length s.input)) idx s)
      >>= (λ end_index. get_slice idx (end_index + 1) >>= (λ t. pure (end_index, t)))

  -- `e` and the exponent behind it, if an `e` comes next: the offset of its end.
  unfoldable pub optional_exponent : ℕ → Lexer MultiPeek → Step MultiPeek (ℕ × Bool)
  unfolding read_exponent
  optional_exponent end_idx s = elim (peek_char s) [
    | none ↦ ok (end_idx, false) s
    | some (i, c) ↦
        if c == b'e'
        then (read_char x
              >> read_char x
              >>= (λ (exponent_idx, d). read_exponent exponent_idx)
              >>= (λ (e, t). pure (e, true)))
            s
        else ok (end_idx, false) s
  ]

  -- The tokens made of the slice from `start` to `end_idx`, inclusive.
  abbrev pub float_token : ℕ → ℕ → Lexer MultiPeek → Step MultiPeek Token
  float_token start end_idx =
      get_slice start (end_idx + 1)
      >>= (λ t. or_fail parse_float (parse_f64 t) >>= (λ v. pure (Token.value (Value.float v))))

  abbrev pub hexfloat_token : ℕ → ℕ → Lexer MultiPeek → Step MultiPeek Token
  hexfloat_token start end_idx =
      get_slice start (end_idx + 1)
      >>= (λ t. or_fail parse_hexf (parse_hexf64 t) >>= (λ v. pure (Token.value (Value.float v))))

  -- The end of `read_int_or_float`, where no fraction was found.
  unfoldable pub finish_int : Bool → ℕ → ℕ → ℕ → Usize → Lexer MultiPeek → Step MultiPeek Token
  unfolding optional_exponent
  finish_int is_signed signed_idx idx end_idx n =
      optional_exponent end_idx >>= (λ (end_idx, is_exponent).
        if is_signed
        then (get_slice signed_idx (end_idx + 1) >>= (λ t.
            if is_exponent
            then (or_fail parse_float (parse_f64 t)
                >>= (λ v. pure (Token.value (Value.int (f64_as_isize v)))))
            else (or_fail parse_int (parse_isize t) >>= (λ v. pure (Token.value (Value.int v))))))
        else if is_exponent
        then (get_slice idx (end_idx + 1) >>= (λ t.
            or_fail parse_float (parse_f64 t)
            >>= (λ v. pure (Token.value (Value.uint (f64_as_usize v))))))
        else pure (Token.value (Value.uint n)))

  -- The mantissa of a hexadecimal float from the digit at `i` on, its `p`, and its exponent.
  unfoldable pub finish_hexfloat : ℕ → ℕ → Lexer MultiPeek → Step MultiPeek Token
  unfolding read_hexdigit read_exponent
  finish_hexfloat start i = read_char x >> read_hexdigit i >> read_char x >>= (λ (e, d).
      if not (d == b'p')
      then fail (lexer invalid_hex_float)
      else read_char x
        >>= (λ (exponent_idx, d). read_exponent exponent_idx)
        >>= (λ (end_idx, t). hexfloat_token start end_idx))

  unfoldable pub finish_decimal : ℕ → ℕ → Lexer MultiPeek → Step MultiPeek Token
  unfolding read_number optional_exponent
  finish_decimal start i =
      read_char x
      >> read_number i
      >>= (λ (end_idx, n). optional_exponent end_idx)
      >>= (λ (end_idx, is_exponent). float_token start end_idx)

  -- `0x` and the digits behind it, where the integer read is a 0 with an `x` right behind it.
  unfoldable pub optional_hex : ℕ → ℕ → ℕ × ℕ → Lexer MultiPeek → Step MultiPeek Bool
  unfolding read_hexdigit
  optional_hex n idx (j, c) =
      if n == 0 && j - idx == 1 && c == b'x'
      then read_char x >> peek_multi >>= (λ item.
        if is_none item
        then fail (lexer invalid_hex_float)
        else read_char x >>= (λ (i, d). read_hexdigit i) >> pure true)
      else pure false

  -- What `read_int_or_float` does from the character behind the integer on.
  unfoldable pub after_int :
      Bool → ℕ → ℕ → ℕ → Usize → ℕ × ℕ → Lexer MultiPeek → Step MultiPeek Token
  unfolding optional_hex finish_hexfloat finish_decimal finish_int
  after_int is_signed signed_idx idx end_idx n (j, c) = optional_hex n idx (j, c) >>= (λ hexfloat.
      if c == b'.' || c == b'x'
      then (if c == b'x' then read_char x >> pure tt else pure tt) >> peek_multi >>= (λ item.
          elim item [
            | none ↦ finish_int is_signed signed_idx idx end_idx n
            | some (i, d) ↦
                if hexfloat && is_hexdigit d
                then finish_hexfloat (if is_signed then signed_idx else idx) i
                else if is_digit d
                then finish_decimal (if is_signed then signed_idx else idx) i
                else finish_int is_signed signed_idx idx end_idx n
          ])
      else finish_int is_signed signed_idx idx end_idx n)

  -- `read_int_or_float` from the digits on.
  unfoldable pub read_unsigned : Bool → ℕ → ℕ → Lexer MultiPeek → Step MultiPeek Token
  unfolding read_number after_int finish_int
  read_unsigned is_signed signed_idx idx = read_number idx >>= (λ (end_idx, n).
      peek_multi >>= (λ item. elim item [
        | none ↦ finish_int is_signed signed_idx idx end_idx n
        | some (j, c) ↦ after_int is_signed signed_idx idx end_idx n (j, c)
      ]))

  unfoldable pub read_int_or_float : ℕ → Lexer MultiPeek → Step MultiPeek Token
  unfolding read_unsigned
  read_int_or_float idx s = elim (get_elem? (as_bytes s.str_input) idx) [
    | none ↦ panic
    | some b ↦
        if b == b'-'
        then (read_char x >>= (λ (i, d). read_unsigned true idx i)) s
        else read_unsigned false 0 idx s
  ]

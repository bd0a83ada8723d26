-- ===== src/Ast/Convert/Values.antt =====
-- src/token.rs and src/ast/mod.rs: from a value to a range value, back, and to a type.
use cddl.Prelude.{some, none, ◌≡◌, ◌⊎◌, inl, inr, refl, ap}
use cddl.Prelude.Int.{ℤ}
use cddl.Token.{Token, Value, RangeValue}
use cddl.Token.Lookup.{range_value_try_from, as_value}
use cddl.Ast.{Type2}
use cddl.Ast.Convert.{type2_from_value, type2_from_range_value}

-- Where the token of a value converts to a range value, both convert to the same type, and `as_value`
-- gives the value back, except that it gives nothing for a signed integer.
pub range_value_try_from-as_value :
    (v : Value) (rv : RangeValue)
    → range_value_try_from (Token.value v) ≡ some rv
    → (type2_from_range_value rv ≡ type2_from_value v)
      × ((as_value rv ≡ some v) ⊎ ((i : ℤ) × (v ≡ Value.int i) × (as_value rv ≡ none)))
unfolding range_value_try_from as_value type2_from_value type2_from_range_value
range_value_try_from-as_value (Value.text a) (RangeValue.ident b k) h = absurd (cc)
range_value_try_from-as_value (Value.text a) (RangeValue.int b) h = absurd (cc)
range_value_try_from-as_value (Value.text a) (RangeValue.uint b) h = absurd (cc)
range_value_try_from-as_value (Value.text a) (RangeValue.float b) h = absurd (cc)
range_value_try_from-as_value (Value.int a) (RangeValue.ident b k) h = absurd (cc)
range_value_try_from-as_value (Value.int a) (RangeValue.int b) h =
    (ap Type2.int_value {x = b} {y = a} (cc), inr (a, refl, refl))
range_value_try_from-as_value (Value.int a) (RangeValue.uint b) h = absurd (cc)
range_value_try_from-as_value (Value.int a) (RangeValue.float b) h = absurd (cc)
range_value_try_from-as_value (Value.uint a) (RangeValue.ident b k) h = absurd (cc)
range_value_try_from-as_value (Value.uint a) (RangeValue.int b) h = absurd (cc)
range_value_try_from-as_value (Value.uint a) (RangeValue.uint b) h = (
  ap Type2.uint_value {x = b} {y = a} (cc),
  inl (ap (λ n. some (Value.uint n)) {x = b} {y = a} (cc)),
)
range_value_try_from-as_value (Value.uint a) (RangeValue.float b) h = absurd (cc)
range_value_try_from-as_value (Value.float a) (RangeValue.ident b k) h = absurd (cc)
range_value_try_from-as_value (Value.float a) (RangeValue.int b) h = absurd (cc)
range_value_try_from-as_value (Value.float a) (RangeValue.uint b) h = absurd (cc)
range_value_try_from-as_value (Value.float a) (RangeValue.float b) h = (
  ap Type2.float_value {x = b} {y = a} (cc),
  inl (ap (λ n. some (Value.float n)) {x = b} {y = a} (cc)),
)
range_value_try_from-as_value (Value.byte a) (RangeValue.ident b k) h = absurd (cc)
range_value_try_from-as_value (Value.byte a) (RangeValue.int b) h = absurd (cc)
range_value_try_from-as_value (Value.byte a) (RangeValue.uint b) h = absurd (cc)
range_value_try_from-as_value (Value.byte a) (RangeValue.float b) h = absurd (cc)

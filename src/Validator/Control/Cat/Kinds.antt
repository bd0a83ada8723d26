-- ===== src/Validator/Control/Cat/Kinds.antt =====
-- src/validator/control.rs: what the arms of `cat_operation` for a literal target make of a controller.
use cddl.Prelude.{Bool, true, false, Option, List, [], ◌∷◌, Text, first, later, if◌then◌else◌}
use cddl.Prelude.Reply.{Reply, answered, ◌>>=◌}
use cddl.Prelude.Reply.Laws.{Concludes, Concludes-then, Each}
use cddl.Token.{Bytes}
use cddl.Ast.{Type2}
use cddl.Validator.Control.{
  Codecs, ControlError, invalid_utf8, invalid_base16, invalid_base64, Literals, or_refuse,
}
use cddl.Validator.Control.Dedent.{trim_quotes, dedent_bytes}
use cddl.Validator.Control.Named.{or_refuse-Concludes}
use cddl.Validator.Control.Cat

pub Each-one : (R : Type2 → Type 0) {l : Type2} → R l → Each R (l ∷ [])
Each-one R h y first = h
Each-one R h y (later m) = elim m [ ]

module _ (x : Codecs) (is_dedent : Bool) where
  open x use {from_utf8, base16_decode, base64url_decode}

  dedent_bytes-Concludes : (b : Bytes) (u : Bool) → Concludes ⊥ (λ a. Unit {0}) (dedent_bytes x b u)
  unfolding dedent_bytes
  dedent_bytes-Concludes b u =
      Concludes-then ⊥ (λ a. Unit {0}) (or_refuse invalid_utf8 (from_utf8 b)) _
        (or_refuse-Concludes ⊥ invalid_utf8 (from_utf8 b)) (λ s. tt)

  dedented_bytes-Concludes :
      (b : Bytes) (u : Bool) → Concludes ⊥ (λ a. Unit {0}) (Cat.dedented_bytes x is_dedent b u)
  dedented_bytes-Concludes b u = choose is_dedent
    where
      choose :
          (d : Bool) → Concludes ⊥ (λ a. Unit {0}) (if d then dedent_bytes x b u else answered b)
      choose true = dedent_bytes-Concludes b u
      choose false = tt

  -- The rest of a call, behind a decoder, and behind the bytes with or without indentation.
  pub decode-then :
      {A B : Type 0} (R : B → Type 0) (e : ControlError) (o : Option A)
      (k : A → Reply ControlError B)
      → ((a : A) → Concludes ⊥ R (k a))
      → Concludes ⊥ R (or_refuse e o >>= k)
  decode-then R e o k h = Concludes-then ⊥ R (or_refuse e o) k (or_refuse-Concludes ⊥ e o) h

  bytes-then :
      (R : List Type2 → Type 0) (b : Bytes) (u : Bool) (k : Bytes → Literals)
      → ((c : Bytes) → Concludes ⊥ R (k c))
      → Concludes ⊥ R (Cat.dedented_bytes x is_dedent b u >>= k)
  bytes-then R b u k h =
      Concludes-then ⊥ R (Cat.dedented_bytes x is_dedent b u) k (dedented_bytes-Concludes b u) h

  module _ (other : Type2 → Literals) (R : Type2 → Type 0) where
    -- A text joined to what two decoders make of a controller.
    decoded-text :
        (value : Text) (e : ControlError) (o : Option Bytes)
        → ((t : Text) → R (Type2.text_value t))
        → Concludes ⊥ (Each R) (
            or_refuse e o
            >>= (λ c. or_refuse invalid_utf8 (from_utf8 c))
            >>= (λ c. Cat.text_literal x is_dedent value c))
    decoded-text value e o r =
        Concludes-then ⊥ (Each R) (or_refuse e o >>= (λ c. or_refuse invalid_utf8 (from_utf8 c)))
          (λ c. Cat.text_literal x is_dedent value c)
          (decode-then (λ a. Unit {0}) e o _
            (λ c. or_refuse-Concludes ⊥ invalid_utf8 (from_utf8 c)))
          (λ c. Each-one R (r _))

    pub cat_text-Concludes :
        (value : Text) (c : Type2)
        → ((t : Text) → R (Type2.text_value t))
        → Concludes ⊥ (Each R) (other c)
        → Concludes ⊥ (Each R) (Cat.cat_text x is_dedent other value c)
    unfolding Cat.cat_text
    cat_text-Concludes value (Type2.text_value s) r h = Each-one R (r _)
    cat_text-Concludes value (Type2.utf8_byte_string b) r h =
        decode-then (Each R) invalid_utf8 (from_utf8 b)
          (λ c. Cat.text_literal x is_dedent value (trim_quotes c)) (λ c. Each-one R (r _))
    cat_text-Concludes value (Type2.b16_byte_string b) r h =
        decoded-text value invalid_base16 (base16_decode b) r
    cat_text-Concludes value (Type2.b64_byte_string b) r h =
        decoded-text value invalid_base64 (base64url_decode b) r
    cat_text-Concludes value c r h = h

    b16_literal-Concludes :
        (b : Bytes)
        → ((c : Bytes) → R (Type2.b16_byte_string c))
        → Concludes ⊥ (Each R) (Cat.b16_literal x is_dedent b)
    b16_literal-Concludes b r =
        decode-then (Each R) invalid_base16 (base16_decode b) _ (λ c. Each-one R (r b))

    pub cat_b16-Concludes :
        (value : Bytes) (c : Type2)
        → ((c : Bytes) → R (Type2.b16_byte_string c))
        → Concludes ⊥ (Each R) (other c)
        → Concludes ⊥ (Each R) (Cat.cat_b16 x is_dedent other value c)
    unfolding Cat.cat_b16
    cat_b16-Concludes value (Type2.text_value s) r h =
        bytes-then (Each R) value false _ (λ v. b16_literal-Concludes _ r)
    cat_b16-Concludes value (Type2.utf8_byte_string b) r h =
        bytes-then (Each R) b true _
          (λ c. bytes-then (Each R) value false _ (λ v. b16_literal-Concludes _ r))
    cat_b16-Concludes value (Type2.b16_byte_string b) r h =
        bytes-then (Each R) value false _
          (λ v. bytes-then (Each R) b false _ (λ c. b16_literal-Concludes _ r))
    cat_b16-Concludes value (Type2.b64_byte_string b) r h =
        decode-then (Each R) invalid_base64 (base64url_decode b) _
          (λ c. bytes-then (Each R) value false _ (λ v. b16_literal-Concludes _ r))
    cat_b16-Concludes value c r h = h

    pub cat_b64-Concludes :
        (value : Bytes) (c : Type2)
        → ((c : Bytes) → R (Type2.b64_byte_string c))
        → Concludes ⊥ (Each R) (other c)
        → Concludes ⊥ (Each R) (Cat.cat_b64 x is_dedent other value c)
    unfolding Cat.cat_b64
    cat_b64-Concludes value (Type2.text_value s) r h =
        decode-then (Each R) invalid_base64 (base64url_decode value) _
          (λ v. bytes-then (Each R) v false _ (λ v. Each-one R (r _)))
    cat_b64-Concludes value (Type2.utf8_byte_string b) r h =
        decode-then (Each R) invalid_base64 (base64url_decode value) _ (λ v.
          bytes-then (Each R) v false _ (λ v. bytes-then (Each R) b true _ (λ c. Each-one R (r _))))
    cat_b64-Concludes value (Type2.b16_byte_string b) r h =
        decode-then (Each R) invalid_base64 (base64url_decode value) _ (λ v.
          decode-then (Each R) invalid_base16 (base16_decode b) _ (λ c.
            bytes-then (Each R) v false _
              (λ v. bytes-then (Each R) c false _ (λ c. Each-one R (r _)))))
    cat_b64-Concludes value (Type2.b64_byte_string b) r h =
        decode-then (Each R) invalid_base64 (base64url_decode value) _ (λ v.
          decode-then (Each R) invalid_base64 (base64url_decode b) _ (λ c.
            bytes-then (Each R) v false _
              (λ v. bytes-then (Each R) c false _ (λ c. Each-one R (r _)))))
    cat_b64-Concludes value c r h = h

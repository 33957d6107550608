-- ===== src/Text/Decimal.antt =====
-- `format!("{n}")` for an unsigned number: its decimal digits, most significant first.
use Prim.Native.Char.{Char, code}
use Prim.Native.String.{◌++◌ as concat}
use text.Mathlib.TextLemmas.{append_cancel_left}
use opendaemon.Prelude.{
  ℕ, zero, suc, String, ◌+◌, ◌-◌, ◌*◌, ◌/◌, ◌%◌, ◌<◌, ◌≤◌, ◌≡◌, refl, ap, sym, ◌∙◌, arith, ltb,
  if◌then◌else◌, Bool-cases, inl, inr,
}

digit : ℕ → Char
digit zero = "0"
digit (suc zero) = "1"
digit (suc (suc zero)) = "2"
digit (suc (suc (suc zero))) = "3"
digit (suc (suc (suc (suc zero)))) = "4"
digit (suc (suc (suc (suc (suc zero))))) = "5"
digit (suc (suc (suc (suc (suc (suc zero)))))) = "6"
digit (suc (suc (suc (suc (suc (suc (suc zero))))))) = "7"
digit (suc (suc (suc (suc (suc (suc (suc (suc zero)))))))) = "8"
digit _ = "9"

-- the digits of `n`, in front of those already written; `suc n` is fuel enough, for `n / 10 < n`
emit : ℕ → ℕ → String → String
emit zero n out = out
emit (suc f) n out =
    let more = emit f (n / 10) (String.◌∷◌ (digit (n % 10)) out) in
    if ltb n 10 then String.◌∷◌ (digit n) out else more

unfoldable pub show : ℕ → String
unfolding emit digit
show n = emit (suc n) n ""

show_tests : (show 0 ≡ "0") × (show 10 ≡ "10") × (show 9073 ≡ "9073")
unfolding show
show_tests = (refl, refl, refl)

-- every character is a decimal digit
abbrev pub AllDigits : String → Type 0
AllDigits String.[] = Unit
AllDigits (String.◌∷◌ c s) = (48 ≤ code c) × (code c ≤ 57) × AllDigits s

digit_bounds : (n : ℕ) → (48 ≤ code (digit n)) × (code (digit n) ≤ 57)
unfolding digit
digit_bounds zero = (omega arith, omega arith)
digit_bounds (suc zero) = (omega arith, omega arith)
digit_bounds (suc (suc zero)) = (omega arith, omega arith)
digit_bounds (suc (suc (suc zero))) = (omega arith, omega arith)
digit_bounds (suc (suc (suc (suc zero)))) = (omega arith, omega arith)
digit_bounds (suc (suc (suc (suc (suc zero))))) = (omega arith, omega arith)
digit_bounds (suc (suc (suc (suc (suc (suc zero)))))) = (omega arith, omega arith)
digit_bounds (suc (suc (suc (suc (suc (suc (suc zero))))))) = (omega arith, omega arith)
digit_bounds (suc (suc (suc (suc (suc (suc (suc (suc zero)))))))) = (omega arith, omega arith)
digit_bounds (suc (suc (suc (suc (suc (suc (suc (suc (suc n))))))))) = (omega arith, omega arith)

emit-AllDigits : (f n : ℕ) (out : String) → AllDigits out → AllDigits (emit f n out)
unfolding emit
emit-AllDigits zero n out h = h
emit-AllDigits (suc f) n out h = elim (Bool-cases (ltb n 10)) [
  | inl small ↦ rw small ((digit_bounds n).0, (digit_bounds n).1, h)
  | inr large ↦ rw large (
      emit-AllDigits f (n / 10) (String.◌∷◌ (digit (n % 10)) out)
        ((digit_bounds (n % 10)).0, (digit_bounds (n % 10)).1, h))
]

pub show-AllDigits : (n : ℕ) → AllDigits (show n)
unfolding show
show-AllDigits n = emit-AllDigits (suc n) n "" tt

-- the value of a numeral, read from the left on, `acc` being the value of what was read before
unfoldable pub value : ℕ → String → ℕ
value acc String.[] = acc
value acc (String.◌∷◌ c s) = value (acc * 10 + (code c - 48)) s

code-digit : (n : ℕ) → n < 10 → code (digit n) - 48 ≡ n
unfolding digit
code-digit zero h = refl
code-digit (suc zero) h = refl
code-digit (suc (suc zero)) h = refl
code-digit (suc (suc (suc zero))) h = refl
code-digit (suc (suc (suc (suc zero)))) h = refl
code-digit (suc (suc (suc (suc (suc zero))))) h = refl
code-digit (suc (suc (suc (suc (suc (suc zero)))))) h = refl
code-digit (suc (suc (suc (suc (suc (suc (suc zero))))))) h = refl
code-digit (suc (suc (suc (suc (suc (suc (suc (suc zero)))))))) h = refl
code-digit (suc (suc (suc (suc (suc (suc (suc (suc (suc zero))))))))) h = refl
code-digit (suc (suc (suc (suc (suc (suc (suc (suc (suc (suc n)))))))))) h = absurd (omega arith)

value-digit :
    (acc n : ℕ) (s : String) → n < 10 → value acc (String.◌∷◌ (digit n) s) ≡ value (acc * 10 + n) s
unfolding value
value-digit acc n s h = rw (code-digit n h)

-- reading back the digits of `n` and then those of `out`
value-emit : (f n : ℕ) (out : String) → n < f → value 0 (emit f n out) ≡ value n out
unfolding emit
value-emit zero n out h = elim h [ ]
value-emit (suc f) n out h = elim (Bool-cases (ltb n 10)) [
  | inl small ↦ rw small (value-digit 0 n out (ground arith) ∙ ap (λ v. value v out) (omega arith))
  | inr large ↦ rw large (
      value-emit f (n / 10) (String.◌∷◌ (digit (n % 10)) out) (ground arith)
      ∙ value-digit (n / 10) (n % 10) out (omega arith)
      ∙ ap (λ v. value v out) (omega arith))
]

pub value-show : (n : ℕ) → value 0 (show n) ≡ n
unfolding show value
value-show n = value-emit (suc n) n "" (omega arith)

-- Two numbers with the same decimal text are the same number.
pub show-injective : (m n : ℕ) → show m ≡ show n → m ≡ n
show-injective m n e = sym (value-show m) ∙ ap (value 0) e ∙ value-show n

-- A text made of a fixed prefix and a number determines the number.
pub append-show-injective :
    (prefix : String) (m n : ℕ) → concat prefix (show m) ≡ concat prefix (show n) → m ≡ n
append-show-injective prefix m n e =
    show-injective m n (append_cancel_left prefix (show m) (show n) e)

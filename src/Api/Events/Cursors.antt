-- ===== src/Api/Events/Cursors.antt =====
-- A cursor that is the decimal text of a number, as the stream sends it, is read as that number.
use Prim.Native.Char.{code}
use opendaemon.Prelude.{
  ℕ, ◌+◌, ◌-◌, ◌*◌, ◌<◌, String, some, none, ◌≡◌, refl, ap, sym, ◌∙◌, ok, arith,
}
use opendaemon.Text.Decimal.{show, value, value-show, AllDigits, show-AllDigits}
use opendaemon.Api.Events.{read_digits, fitting, parse_i64, parse_cursor, or_invalid}

read_digits_lem : (n : ℕ) (s : String) → AllDigits s → read_digits n s ≡ some (value n s)
unfolding read_digits value
read_digits_lem n String.[] h = refl
read_digits_lem n (String.◌∷◌ c s) h =
    ground (arith, h.0, h.1, read_digits_lem (n * 10 + (code c - 48)) s h.2)

show_nonempty : (n : ℕ) → show n ≡ String.[] → ⊥
unfolding show value
show_nonempty n h =
    let zero_n : n ≡ 0 = sym (value-show n) ∙ ap (value 0) h in
    absurd (let e = ap show (sym zero_n) ∙ h in cc)

parse_digits : (n : ℕ) (s : String) → show n ≡ s → AllDigits s → parse_i64 s ≡ fitting (some n)
unfolding parse_i64
parse_digits n String.[] e h = absurd (show_nonempty n e)
parse_digits n (String.◌∷◌ c s) e h =
    let read : read_digits 0 (String.◌∷◌ c s) ≡ some n =
      read_digits_lem 0 (String.◌∷◌ c s) h
      ∙ ap (λ t. some (value 0 t)) (sym e)
      ∙ ap some (value-show n) in
    ground (arith, h.0, h.1, read)

-- The decimal text of a number below 2⁶³, as the cursor or as the `Last-Event-ID`, is read as that
-- number.
pub parse_cursor-show :
    (n : ℕ)
    → n < 0x8000000000000000
    → (parse_cursor (some (show n)) none ≡ ok n) × (parse_cursor none (some (show n)) ≡ ok n)
unfolding parse_cursor
parse_cursor-show n small =
    let read : parse_i64 (show n) ≡ some n =
      parse_digits n (show n) refl (show-AllDigits n) ∙ (ground arith) in
    (ap or_invalid read, ap or_invalid read)

-- ===== src/Text/Names.antt =====
-- Lists of names: sets of texts that were seen, as the loops of the checks keep them.
use opendaemon.Prelude.{
  String, Bool, false, ◌≡◌, ◌≢◌, refl, sym, ◌↔◌, inl, inr, List, [], ◌∷◌, All, any, str_eq, eq_iff,
  Bool-cases, arith,
}
use opendaemon.Text.{is_blank}

abbrev pub is_in : List String → String → Bool
is_in seen s = any (λ t. str_eq t s) seen

-- a text that is not blank
abbrev pub Filled : String → Type 0
Filled s = is_blank s ≡ false

abbrev pub NoRepeat : List String → Type 0
NoRepeat [] = Unit
NoRepeat (v ∷ vs) = All (λ u. u ≢ v) vs × NoRepeat vs

abbrev pub Names : List String → Type 0
Names vs = All Filled vs × NoRepeat vs

pub str_eq-false_iff : (s t : String) → (str_eq s t ≡ false) ↔ (s ≢ t)
str_eq-false_iff s t = (
  λ h e. ground (arith, h, (eq_iff s t).1 e),
  λ h. elim (Bool-cases (str_eq s t)) [ inl e ↦ absurd (h ((eq_iff s t).0 e)) | inr e ↦ e ],
)

pub is_in-false_iff :
    (seen : List String) (v : String) → (is_in seen v ≡ false) ↔ All (λ t. t ≢ v) seen
is_in-false_iff [] v = (λ h. tt, λ h. refl)
is_in-false_iff (t ∷ ts) v = (
  λ h. ((str_eq-false_iff t v).0 (ground (arith, h)), (is_in-false_iff ts v).0 (ground (arith, h))),
  λ h. ground (arith, (str_eq-false_iff t v).1 h.0, (is_in-false_iff ts v).1 h.1),
)

-- no value is among those that came before
abbrev pub New : List String → List String → Type 0
New seen = All (λ v. All (λ t. t ≢ v) seen)

pub New-cons_iff :
    (v : String) (seen vs : List String) → New (v ∷ seen) vs ↔ (All (λ u. u ≢ v) vs × New seen vs)
New-cons_iff v seen [] = (λ h. (tt, tt), λ h. tt)
New-cons_iff v seen (u ∷ us) = (
  λ h. let (a, b) = (New-cons_iff v seen us).0 h.1 in ((λ e. h.0.0 (sym e), a), (h.0.1, b)),
  λ h. ((λ e. h.0.0 (sym e), h.1.0), (New-cons_iff v seen us).1 (h.0.1, h.1.1)),
)

pub New-nil : (vs : List String) → New [] vs
New-nil [] = tt
New-nil (v ∷ vs) = (tt, New-nil vs)

-- ===== src/Registry/Checks.antt =====
-- When the single checks of registry/validate.rs find nothing wrong.
use opendaemon.Prelude.{
  ℕ, ◌+◌, String, Bool, true, false, not, ◌&&◌, ◌≡◌, ◌≢◌, refl, subst, ◌↔◌, ◌⊎◌, inl, inr, List, [],
  ◌∷◌, ◌++◌, All, Option, none, some, arith,
}
use mathlib.Core.Option.{some-injective}
use opendaemon.Text.Names.{Filled, NoRepeat, Names, is_in-false_iff, New, New-cons_iff, New-nil}
use opendaemon.Registry.Validate.{
  is_empty, all_of, push_if, duplicate_errors, push_duplicate_errors, require_non_empty,
  is_absolute_command, command_errors, segment_errors, both_errors, segments,
}

abbrev pub Nothing : List String → Type 0
Nothing es = es ≡ []

pub append_iff : (xs ys : List String) → Nothing (xs ++ ys) ↔ (Nothing xs × Nothing ys)
append_iff [] ys = (λ h. (refl, h), λ h. h.1)
append_iff (x ∷ xs) ys = (λ h. absurd (cc), λ h. absurd (ground (arith, h.0)))

pub all_of_iff : (ess : List (List String)) → Nothing (all_of ess) ↔ All Nothing ess
all_of_iff [] = (λ h. tt, λ h. refl)
all_of_iff (es ∷ ess) = (
  λ h. let (a, b) = (append_iff es (all_of ess)).0 h in (a, (all_of_iff ess).0 b),
  λ h. (append_iff es (all_of ess)).1 (h.0, (all_of_iff ess).1 h.1),
)

pub push_if_iff : (b : Bool) (e : String) → Nothing (push_if b e) ↔ (b ≡ false)
unfolding push_if
push_if_iff true e = (λ h. absurd (cc), λ h. absurd (cc))
push_if_iff false e = (λ h. refl, λ h. refl)

-- a test that has to hold, and one of two that must not both hold
pub push_if-not_iff : (b : Bool) (e : String) → Nothing (push_if (not b) e) ↔ (b ≡ true)
unfolding push_if
push_if-not_iff true e = (λ h. refl, λ h. refl)
push_if-not_iff false e = (λ h. absurd (cc), λ h. absurd (cc))

pub push_if_unless_iff :
    (a b : Bool) (e : String) → Nothing (push_if (a && not b) e) ↔ ((a ≡ false) ⊎ (b ≡ true))
unfolding push_if
push_if_unless_iff true true e = (λ h. inr refl, λ h. refl)
push_if_unless_iff true false e = (λ h. absurd (cc), λ h. absurd (ground (arith, h)))
push_if_unless_iff false b e = (λ h. inl refl, λ h. refl)

pub is_empty_iff : (xs : List String) → (is_empty xs ≡ false) ↔ (xs ≢ [])
is_empty_iff [] = (λ h. absurd (cc), λ h. absurd (h refl))
is_empty_iff (x ∷ xs) = (λ h e. cc, λ h. refl)

duplicate_errors_iff :
    (p f : String) (seen vs : List String)
    → Nothing (duplicate_errors p f seen vs) ↔ (All Filled vs × NoRepeat vs × New seen vs)
duplicate_errors_iff p f seen [] = (λ h. (tt, tt, tt), λ h. refl)
duplicate_errors_iff p f seen (v ∷ vs) = (
  λ h.
      let (a, rest) = (append_iff _ _).0 h in
      let (b, more) = (append_iff _ _).0 rest in
      let (filled, distinct, new) = (duplicate_errors_iff p f (v ∷ seen) vs).0 more in
      let (others, new') = (New-cons_iff v seen vs).0 new in
      (
        ((push_if_iff _ _).0 a, filled),
        (others, distinct),
        ((is_in-false_iff seen v).0 ((push_if_iff _ _).0 b), new'),
      ),
  λ h.
      let (filled, distinct, new) = h in
      (append_iff _ _).1 (
        (push_if_iff _ _).1 filled.0,
        (append_iff _ _).1 (
          (push_if_iff _ _).1 ((is_in-false_iff seen v).1 new.0),
          (duplicate_errors_iff p f (v ∷ seen) vs).1
              (filled.1, distinct.1, (New-cons_iff v seen vs).1 (distinct.0, new.1)),
        ),
      ),
)

pub push_duplicate_errors_iff :
    (p f : String) (vs : List String) → Nothing (push_duplicate_errors p f vs) ↔ Names vs
unfolding push_duplicate_errors
push_duplicate_errors_iff p f vs = (
  λ h. let (a, b, _) = (duplicate_errors_iff p f [] vs).0 h in (a, b),
  λ h. (duplicate_errors_iff p f [] vs).1 (h.0, h.1, New-nil vs),
)

-- the commands that may be used for detection
abbrev pub IsCommand : String → Type 0
IsCommand c = Filled c × (is_absolute_command c ≡ false)

pub command_errors_iff :
    (p : String) (i : ℕ) (cs : List String) → Nothing (command_errors p i cs) ↔ All IsCommand cs
command_errors_iff p i [] = (λ h. tt, λ h. refl)
command_errors_iff p i (c ∷ cs) = (
  λ h.
      let (a, rest) = (append_iff _ _).0 h in
      let (b, more) = (append_iff _ _).0 rest in
      (((push_if_iff _ _).0 a, (push_if_iff _ _).0 b), (command_errors_iff p (i + 1) cs).0 more),
  λ h. (append_iff _ _).1 (
    (push_if_iff _ _).1 h.0.0,
    (append_iff _ _).1 ((push_if_iff _ _).1 h.0.1, (command_errors_iff p (i + 1) cs).1 h.1),
  ),
)

segment_errors_iff :
    (p : String) (i : ℕ) (cs : List String) → Nothing (segment_errors p i cs) ↔ All Filled cs
segment_errors_iff p i [] = (λ h. tt, λ h. refl)
segment_errors_iff p i (c ∷ cs) = (
  λ h.
      let (a, rest) = (append_iff _ _).0 h in
      ((push_if_iff _ _).0 a, (segment_errors_iff p (i + 1) cs).0 rest),
  λ h. (append_iff _ _).1 ((push_if_iff _ _).1 h.0, (segment_errors_iff p (i + 1) cs).1 h.1),
)

pub both_errors_iff :
    (p : String) (required vs : List String) → Nothing (both_errors p required vs) ↔ New required vs
both_errors_iff p required [] = (λ h. tt, λ h. refl)
both_errors_iff p required (v ∷ vs) = (
  λ h.
      let (a, rest) = (append_iff _ _).0 h in
      (
        (is_in-false_iff required v).0 ((push_if_iff _ _).0 a),
        (both_errors_iff p required vs).0 rest,
      ),
  λ h. (append_iff _ _).1 (
    (push_if_iff _ _).1 ((is_in-false_iff required v).1 h.0),
    (both_errors_iff p required vs).1 h.1,
  ),
)

pub require_non_empty_iff : (p f v : String) → Nothing (require_non_empty p f v) ↔ Filled v
unfolding require_non_empty
require_non_empty_iff p f v = push_if_iff _ _

pub segments_iff :
    (p : String) (o : Option (List String))
    → Nothing (segments p o) ↔ ((command : List String) → o ≡ some command → All Filled command)
segments_iff p none = (λ h c e. absurd (cc), λ h. refl)
segments_iff p (some command) = (
  λ h c e. subst (All Filled) (some-injective command c e) ((segment_errors_iff p 0 command).0 h),
  λ h. (segment_errors_iff p 0 command).1 (h command refl),
)

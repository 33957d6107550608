-- ===== src/Runtime/Template/Pairs.antt =====
-- What the search for a pair of braces finds: the first one, or none where there is none.
use Prim.Native.Char.{Char, code}
use Prim.Native.String.{◌++◌ as concat}
use text.Mathlib.TextEquality.{Char-path}
use text.Mathlib.TextLemmas.{nil-append, cons-append}
use mathlib.Core.Option.{some-injective}
use opendaemon.Prelude.{
  ℕ, suc, ◌<◌, ◌≤◌, String, true, false, ◌&&◌, ◌==◌, ◌≡◌, ◌≢◌, refl, sym, subst, ap, ap₂, ◌∙◌, inl,
  inr, Option, none, some, arith, Bool-cases,
}
use opendaemon.Text.{begins_with}
use opendaemon.Runtime.Template.{tail, before_cons, find_pair, chars}

chars-tail : (s : String) → chars (tail s) ≤ chars s
chars-tail String.[] = omega arith
chars-tail (String.◌∷◌ c s) = omega arith

-- what stands behind a pair is shorter
pub find_pair-shorter :
    (n : ℕ) (s : String) (p : String × String) → find_pair n s ≡ some p → chars p.1 < chars s
unfolding find_pair
find_pair-shorter n String.[] p h = absurd (cc)
find_pair-shorter n (String.◌∷◌ c s) p h = elim (Bool-cases (code c == n && begins_with n s)) [
  | inl e ↦ here (ground (arith, e))
  | inr e ↦ later (find_pair-shorter n s) (find_pair n s) refl (ground (arith, e))
]
  where
    here :
        ◌≡◌ {A = Option (String × String)} (some (String.[], tail s)) (some p)
        → chars p.1 < suc (chars s)
    here q =
        subst (λ x. chars x.1 < suc (chars s)) (some-injective _ p q) (omega (arith, chars-tail s))

    later :
        ((r : String × String) → find_pair n s ≡ some r → chars r.1 < chars s)
        → (o : Option (String × String)) → find_pair n s ≡ o
        → before_cons c o ≡ some p
        → chars p.1 < suc (chars s)
    later ih none e q = absurd (cc)
    later ih (some r) e q =
        let shorter = ih r e in
        subst (λ x. chars x.1 < suc (chars s)) (some-injective _ p q) (omega (arith, shorter))

-- a pair of the character, with what stands before it and after it
abbrev pub two : Char → String × String → String
two c p = concat p.0 (String.◌∷◌ c (String.◌∷◌ c p.1))

begins_with_lem :
    (c : Char) (s : String) → begins_with (code c) s ≡ true → s ≡ String.◌∷◌ c (tail s)
begins_with_lem c String.[] h = absurd (cc)
begins_with_lem c (String.◌∷◌ d s) h = ap (λ x. String.◌∷◌ x s) (Char-path d c (ground (arith, h)))

pub find_pair_lem :
    (c : Char) (s : String) (p : String × String) → find_pair (code c) s ≡ some p → s ≡ two c p
unfolding find_pair
find_pair_lem c String.[] p h = absurd (cc)
find_pair_lem c (String.◌∷◌ d s) p h =
    elim (Bool-cases (code d == code c && begins_with (code c) s)) [
      | inl e ↦ here (ground (arith, e)) (ground (arith, e)) (ground (arith, e))
      | inr e ↦ later (find_pair_lem c s) (find_pair (code c) s) refl (ground (arith, e))
    ]
  where
    here :
        code d ≡ code c
        → begins_with (code c) s ≡ true
        → ◌≡◌ {A = Option (String × String)} (some (String.[], tail s)) (some p)
        → String.◌∷◌ d s ≡ concat p.0 (String.◌∷◌ c (String.◌∷◌ c p.1))
    here first second q =
        subst (λ x. String.◌∷◌ d s ≡ concat x.0 (String.◌∷◌ c (String.◌∷◌ c x.1)))
          (some-injective _ p q)
          (ap₂ String.◌∷◌ (Char-path d c first) (begins_with_lem c s second) ∙ sym (nil-append _))

    later :
        ((r : String × String)
          → find_pair (code c) s ≡ some r
          → s ≡ concat r.0 (String.◌∷◌ c (String.◌∷◌ c r.1)))
        → (o : Option (String × String)) → find_pair (code c) s ≡ o
        → before_cons d o ≡ some p
        → String.◌∷◌ d s ≡ concat p.0 (String.◌∷◌ c (String.◌∷◌ c p.1))
    later ih none e q = absurd (cc)
    later ih (some r) e q =
        subst (λ x. String.◌∷◌ d s ≡ concat x.0 (String.◌∷◌ c (String.◌∷◌ c x.1)))
          (some-injective _ p q) (ap (String.◌∷◌ d) (ih r e) ∙ sym (cons-append d r.0 _))

-- no two characters `c` stand side by side
abbrev pub Apart : Char → String → Type 0
Apart c s = (before after : String) → s ≢ concat before (String.◌∷◌ c (String.◌∷◌ c after))

nonempty : (b : String) (c : Char) (x : String) → String.[] ≢ concat b (String.◌∷◌ c x)
nonempty String.[] c x h = absurd (let e = h ∙ nil-append (String.◌∷◌ c x) in cc)
nonempty (String.◌∷◌ d b) c x h = absurd (let e = h ∙ cons-append d b (String.◌∷◌ c x) in cc)

before_cons-none : (d : Char) (o : Option (String × String)) → before_cons d o ≡ none → o ≡ none
before_cons-none d none h = refl
before_cons-none d (some p) h = absurd (cc)

-- where no pair is found, there is none
pub find_pair-Apart : (c : Char) (s : String) → find_pair (code c) s ≡ none → Apart c s
unfolding find_pair
find_pair-Apart c String.[] h before after e = nonempty before c (String.◌∷◌ c after) e
find_pair-Apart c (String.◌∷◌ d s) h String.[] after e =
    let whole : String.◌∷◌ d s ≡ String.◌∷◌ c (String.◌∷◌ c after) = e ∙ nil-append _ in
    let first : begins_with (code c) (String.◌∷◌ d s) ≡ true =
      ap (begins_with (code c)) whole ∙ (ground arith) in
    let second : begins_with (code c) s ≡ true =
      ap (λ x. begins_with (code c) (tail x)) whole ∙ (ground arith) in
    absurd (ground (arith, h, first, second))
find_pair-Apart c (String.◌∷◌ d s) h (String.◌∷◌ x before) after e =
    find_pair-Apart c s (before_cons-none d (find_pair (code c) s) (ground (arith, h))) before after
      (ap tail (e ∙ cons-append x before _))

begins_with-append :
    (c : Char) (x y : String)
    → begins_with (code c) (concat x (String.◌∷◌ c String.[]))
      ≡ begins_with (code c) (concat x (String.◌∷◌ c y))
begins_with-append c String.[] y =
    rw (nil-append (String.◌∷◌ c String.[]), nil-append (String.◌∷◌ c y)) refl
begins_with-append c (String.◌∷◌ d x) y =
    rw (cons-append d x (String.◌∷◌ c String.[]), cons-append d x (String.◌∷◌ c y)) refl

-- the pair that is found is the first
pub find_pair_first :
    (c : Char) (s : String) (p : String × String)
    → find_pair (code c) s ≡ some p
    → find_pair (code c) (concat p.0 (String.◌∷◌ c String.[])) ≡ none
unfolding find_pair
find_pair_first c String.[] p h = absurd (cc)
find_pair_first c (String.◌∷◌ d s) p h =
    elim (Bool-cases (code d == code c && begins_with (code c) s)) [
      | inl e ↦ here (ground (arith, e))
      | inr e ↦ later e (find_pair_first c s) (find_pair (code c) s) refl (ground (arith, e))
    ]
  where
    here :
        ◌≡◌ {A = Option (String × String)} (some (String.[], tail s)) (some p)
        → find_pair (code c) (concat p.0 (String.◌∷◌ c String.[])) ≡ none
    here q =
        subst (λ x. find_pair (code c) (concat x.0 (String.◌∷◌ c String.[])) ≡ none)
          (some-injective _ p q) (rw (nil-append (String.◌∷◌ c String.[])) (ground arith))

    later :
        (code d == code c && begins_with (code c) s) ≡ false
        → ((r : String × String)
            → find_pair (code c) s ≡ some r
            → find_pair (code c) (concat r.0 (String.◌∷◌ c String.[])) ≡ none)
        → (o : Option (String × String)) → find_pair (code c) s ≡ o
        → before_cons d o ≡ some p
        → find_pair (code c) (concat p.0 (String.◌∷◌ c String.[])) ≡ none
    later miss ih none e q = absurd (cc)
    later miss ih (some r) e q =
        let rest = ih r e in
        let same : begins_with (code c) (concat r.0 (String.◌∷◌ c String.[]))
            ≡ begins_with (code c) s =
          begins_with-append c r.0 (String.◌∷◌ c r.1)
          ∙ sym (ap (begins_with (code c)) (find_pair_lem c s r e)) in
        subst (λ x. find_pair (code c) (concat x.0 (String.◌∷◌ c String.[])) ≡ none)
          (some-injective _ p q)
          (rw (cons-append d r.0 (String.◌∷◌ c String.[])) (ground (arith, rest, same, miss)))

pub open_pair : (x : String) → concat "{{" x ≡ String.◌∷◌ "{" (String.◌∷◌ "{" x)
open_pair x =
    cons-append "{" "{" x
    ∙ ap (String.◌∷◌ "{") (cons-append "{" String.[] x ∙ ap (String.◌∷◌ "{") (nil-append x))

pub close_pair : (x : String) → concat "}}" x ≡ String.◌∷◌ "}" (String.◌∷◌ "}" x)
close_pair x =
    cons-append "}" "}" x
    ∙ ap (String.◌∷◌ "}") (cons-append "}" String.[] x ∙ ap (String.◌∷◌ "}") (nil-append x))

-- ===== src/Runtime/Template/Rendering.antt =====
-- The loop of `CommandTemplate::render` ends, and what it renders a template to.
use Prim.Native.String.{◌++◌ as concat}
use opendaemon.Prelude.{
  ℕ, zero, suc, ◌<◌, String, ◌≡◌, ◌≢◌, refl, sym, subst, ap, ◌∙◌, Option, none, some, Result, ok,
  err, arith,
}
use opendaemon.Text.{trim}
use opendaemon.Runtime.Template.{
  TemplateValues, RenderError, unterminated, resolve_variable, find_pair, open_brace, close_brace,
  Progress, push, push_value, close, next, render_loop, chars, render,
}
use opendaemon.Runtime.Template.Pairs.{
  find_pair-shorter, find_pair_lem, find_pair-Apart, find_pair_first, open_pair, close_pair,
}

-- the text does not hold the two characters
abbrev pub Free : String → String → Type 0
Free pair s = (before after : String) → s ≢ concat before (concat pair after)

-- what is rendered in front of the rest
abbrev pub behind : String → String → Result String RenderError → Result String RenderError
behind before value (ok more) = ok (concat before (concat value more))
behind before value (err e) = err e

-- What a template means. A text without `{{` stands for itself. Otherwise the first variable begins
-- behind the first `{{` (there is none in the text before it, not even with the first brace of this
-- one) and ends at the first `}}` after it: without one, or where the variable has no value, the
-- answer is that error; else the value comes after the text before it, and what follows the variable
-- is rendered on its own, so that no value is ever read as a template.
pub data Means (values : TemplateValues) : String → Result String RenderError → Type 0 where
  plain : (s : String) → Free "{{" s → Means values s (ok s)
  unclosed :
      (before rest : String)
      → Free "{{" (concat before "{")
      → Free "}}" rest
      → Means values (concat before (concat "{{" rest)) (err unterminated)
  unresolved :
      (before name rest : String) (e : RenderError)
      → Free "{{" (concat before "{")
      → Free "}}" (concat name "}")
      → resolve_variable (trim name) values ≡ err e
      → Means values (concat before (concat "{{" (concat name (concat "}}" rest)))) (err e)
  variable :
      (before name rest value : String) (r : Result String RenderError)
      → Free "{{" (concat before "{")
      → Free "}}" (concat name "}")
      → resolve_variable (trim name) values ≡ ok value
      → Means values rest r
      → Means values
          (concat before (concat "{{" (concat name (concat "}}" rest))))
          (behind before value r)

-- the loop answers, with what the template means
abbrev Answers : TemplateValues → String → Progress → Type 0
Answers values s o = (r : Result String RenderError) × (o ≡ some r) × Means values s r

Free-open : (s : String) → find_pair open_brace s ≡ none → Free "{{" s
Free-open s h before after e =
    find_pair-Apart "{" s h before after (e ∙ ap (concat before) (open_pair after))

Free-close : (s : String) → find_pair close_brace s ≡ none → Free "}}" s
Free-close s h before after e =
    find_pair-Apart "}" s h before after (e ∙ ap (concat before) (close_pair after))

module _ (values : TemplateValues) where
  opened :
      (s : String) (p : String × String)
      → find_pair open_brace s ≡ some p
      → concat p.0 (concat "{{" p.1) ≡ s
  opened s p h = ap (concat p.0) (open_pair p.1) ∙ sym (find_pair_lem "{" s p h)

  template_text :
      (s : String) (p q : String × String)
      → find_pair open_brace s ≡ some p
      → find_pair close_brace p.1 ≡ some q
      → concat p.0 (concat "{{" (concat q.0 (concat "}}" q.1))) ≡ s
  template_text s p q hp hq =
      ap (λ x. concat p.0 (concat "{{" x))
        (ap (concat q.0) (close_pair q.1) ∙ sym (find_pair_lem "}" p.1 q hq))
      ∙ opened s p hp

  -- behind a variable whose value is known
  push-Answers :
      (s : String) (p q : String × String) (value : String) (o : Progress)
      → find_pair open_brace s ≡ some p
      → find_pair close_brace p.1 ≡ some q
      → resolve_variable (trim q.0) values ≡ ok value
      → Answers values q.1 o
      → Answers values s (push p.0 (push value o))
  push-Answers s p q value o hp hq hv (r, e, means) = (
    behind p.0 value r,
    ap (λ x. push p.0 (push value x)) e ∙ pushed r,
    subst (λ x. Means values x (behind p.0 value r)) (template_text s p q hp hq)
        (variable p.0 q.0 q.1 value r (Free-open _ (find_pair_first "{" s p hp))
          (Free-close _ (find_pair_first "}" p.1 q hq)) hv means),
  )
    where
      pushed :
          (r : Result String RenderError)
          → push p.0 (push value (some r)) ≡ some (behind p.0 value r)
      pushed (ok more) = refl
      pushed (err x) = refl

  answers : (f : ℕ) (s : String) → chars s < f → Answers values s (render_loop f values s)
  unfolding render_loop
  answers zero s h = absurd (omega arith)
  answers (suc f) s h = opening (answers f) (find_pair open_brace s) refl
    where
      resolved :
          (p q : String × String)
          → find_pair open_brace s ≡ some p
          → find_pair close_brace p.1 ≡ some q
          → Answers values q.1 (render_loop f values q.1)
          → (r : Result String RenderError) → resolve_variable (trim q.0) values ≡ r
          → Answers values s (push p.0 (push_value r (render_loop f values q.1)))
      resolved p q hp hq rest (ok value) e = push-Answers s p q value _ hp hq e rest
      resolved p q hp hq rest (err x) e = (
        err x,
        refl,
        subst (λ t. Means values t (err x)) (template_text s p q hp hq)
            (unresolved p.0 q.0 q.1 x (Free-open _ (find_pair_first "{" s p hp))
              (Free-close _ (find_pair_first "}" p.1 q hq)) e),
      )

      closing :
          ((t : String) → chars t < f → Answers values t (render_loop f values t))
          → (p : String × String) → find_pair open_brace s ≡ some p
          → (o : Option (String × String)) → find_pair close_brace p.1 ≡ o
          → Answers values s (push p.0 (close values (render_loop f values) o))
      closing ih p hp none e = (
        err unterminated,
        refl,
        subst (λ t. Means values t (err unterminated)) (opened s p hp)
            (unclosed p.0 p.1 (Free-open _ (find_pair_first "{" s p hp)) (Free-close p.1 e)),
      )
      closing ih p hp (some q) e =
          resolved p q hp e
            (ih q.1 (
              omega (
                arith,
                h,
                find_pair-shorter open_brace s p hp,
                find_pair-shorter close_brace p.1 q e,
              )))
            (resolve_variable (trim q.0) values) refl

      opening :
          ((t : String) → chars t < f → Answers values t (render_loop f values t))
          → (o : Option (String × String)) → find_pair open_brace s ≡ o
          → Answers values s (next values (render_loop f values) s o)
      opening ih none e = (ok s, refl, plain s (Free-open s e))
      opening ih (some p) e = closing ih p e (find_pair close_brace p.1) refl

  -- Rendering a template always answers, and what it answers, a text or an error, is what the template
  -- means: `{{` and `}}` are paired from the left, the text around the variables stays as it is, each
  -- variable gives its value, and the answer is an error just where the first variable that fails is
  -- not closed, not known or has no value.
  pub render_answers :
      (s : String) → (r : Result String RenderError) × (render s values ≡ some r) × Means values s r
  unfolding render
  render_answers s = answers (suc (chars s)) s (omega arith)

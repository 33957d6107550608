-- ===== src/Runtime/Template.antt =====
-- runtime/template.rs: the templates of a provider's arguments. A loop of the source is a function of
-- fuel, one for each variable; `render` gives as much as the template has characters.
pub mod Pairs
pub mod Rendering
use Prim.Native.Char.{Char, code}
use Prim.Native.String.{◌++◌ as concat}
use text.Mathlib.TextLemmas.{nil-append, cons-append}
use mathlib.Core.Option.{some-injective}
use opendaemon.Prelude.{
  ℕ, zero, suc, ◌<◌, ◌≤◌, String, Bool, true, false, not, ◌&&◌, ◌==◌, ◌≡◌, ◌≢◌, refl, sym, subst,
  ap, ◌∙◌, ◌⊎◌, inl, inr, List, [], ◌∷◌, Option, none, some, str_eq, if◌then◌else◌, Result, ok, err,
  and_then, arith, Bool-cases, Option-cases, Result-cases,
}
use opendaemon.Text.{trim, begins_with}

pub record TemplateValues : Type 0 where
  pub prompt : Option String
  pub model : Option String
  pub workspace : Option String
  pub task_id : Option String
  pub agent_id : Option String
  pub directory_id : Option String

-- the messages of `render_error`, whose code is `command_render_failed`
pub data RenderError : Type 0 where
  unterminated : RenderError
  unknown missing : String → RenderError

abbrev pub given : String → Option String → Result String RenderError
given variable none = err (missing variable)
given variable (some value) = ok value

unfoldable pub resolve_variable : String → TemplateValues → Result String RenderError
resolve_variable variable values =
    if str_eq variable "prompt"
    then given variable values.prompt
    else if str_eq variable "model"
    then given variable values.model
    else if str_eq variable "workspace"
    then given variable values.workspace
    else if str_eq variable "task_id"
    then given variable values.task_id
    else if str_eq variable "agent_id"
    then given variable values.agent_id
    else if str_eq variable "directory_id"
    then given variable values.directory_id
    else err (unknown variable)

abbrev pub tail : String → String
tail String.[] = String.[]
tail (String.◌∷◌ c s) = s

abbrev pub before_cons : Char → Option (String × String) → Option (String × String)
before_cons c none = none
before_cons c (some p) = some (String.◌∷◌ c p.0, p.1)

-- `text.find("{{")` or `text.find("}}")`, as what stands before the two characters and after them
unfoldable pub find_pair : ℕ → String → Option (String × String)
find_pair n String.[] = none
find_pair n (String.◌∷◌ c s) =
    let rest = before_cons c (find_pair n s) in
    if code c == n && begins_with n s then some (String.[], tail s) else rest

abbrev pub open_brace : ℕ
open_brace = 123

abbrev pub close_brace : ℕ
close_brace = 125

-- what the loop has come to: `none` where the fuel is gone
abbrev pub Progress : Type 0
Progress = Option (Result String RenderError)

-- `rendered.push_str(…)` of what stands before the rest
abbrev pub push : String → Progress → Progress
push s none = none
push s (some (ok t)) = some (ok (concat s t))
push s (some (err e)) = some (err e)

abbrev pub push_value : Result String RenderError → Progress → Progress
push_value (ok value) rest = push value rest
push_value (err e) rest = some (err e)

-- after an opening pair; `more` renders what remains behind the closing one
abbrev pub close : TemplateValues → (String → Progress) → Option (String × String) → Progress
close values more none = some (err unterminated)
close values more (some p) = push_value (resolve_variable (trim p.0) values) (more p.1)

abbrev pub next :
    TemplateValues → (String → Progress) → String → Option (String × String) → Progress
next values more s none = some (ok s)
next values more s (some p) = push p.0 (close values more (find_pair close_brace p.1))

unfoldable pub render_loop : ℕ → TemplateValues → String → Progress
unfolding find_pair resolve_variable trim
render_loop zero values s = none
render_loop (suc f) values s = next values (render_loop f values) s (find_pair open_brace s)

abbrev pub chars : String → ℕ
chars String.[] = 0
chars (String.◌∷◌ c s) = suc (chars s)

-- `CommandTemplate::render`
unfoldable pub render : String → TemplateValues → Progress
unfolding render_loop
render s values = render_loop (suc (chars s)) values s

-- `CommandTemplate::render_args`: the first error is the answer
abbrev pub collect :
    Progress → Option (Result (List String) RenderError) → Option (Result (List String) RenderError)
collect none rest = none
collect (some (err e)) rest = some (err e)
collect (some (ok s)) none = none
collect (some (ok s)) (some (err e)) = some (err e)
collect (some (ok s)) (some (ok ss)) = some (ok (s ∷ ss))

unfoldable pub render_args :
    List String → TemplateValues → Option (Result (List String) RenderError)
unfolding render
render_args [] values = some (ok [])
render_args (a ∷ as') values = collect (render a values) (render_args as' values)

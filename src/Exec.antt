-- ===== src/Exec.antt =====
-- The pure helpers of src/domain/exec.rs: the command in a request's last user text, its arguments,
-- and the text that shows what the command gave.
use local_proxy.Base.{
  ℕ, ◌+◌, Bool, true, false, ◌||◌, ◌&&◌, not, Option, none, some, List, [], ◌∷◌, ◌++◌, ◌==◌,
  if◌then◌else◌, Text, text_eq, is_empty, is_some, codes, strip_prefix, starts_with, is_whitespace,
  trim_start, trim, show_nat, ltb,
}
use local_proxy.Json.{
  Value, Items, no_items, item, string, array, get, as_str, as_array, and_then, or_none, get_or,
}
pub mod Quoting

unfoldable pub after_token : Option Text → Option Text
after_token none = none
after_token (some []) = some []
after_token (some (c ∷ rest)) = if is_whitespace c then some (trim_start (c ∷ rest)) else none

unfoldable pub split_command : (text token : Text) → Option Text
split_command text token = after_token (strip_prefix token text)

-- `v.get(key).and_then(Value::as_str) == Some(s)`.
abbrev pub field_is : Value → Text → Text → Bool
field_is v k s = elim (and_then (get k v) as_str) [ none ↦ false | some t ↦ text_eq t s ]

-- The text of a text block that is no reminder of the client's own.
unfoldable pub user_block : Value → Option Text
user_block b =
    if field_is b (codes "type") (codes "text")
    then elim (and_then (get (codes "text") b) as_str) [
      | none ↦ none
      | some t ↦ if starts_with (codes "<system-reminder>") (trim_start t) then none else some t
    ]
    else none

-- The last element for which `f` gives a text.
unfoldable pub last_text : (Value → Option Text) → Items → Option Text
last_text f no_items = none
last_text f (item v vs) = or_none (last_text f vs) (f v)

unfoldable pub content_text : Option Value → Option Text
content_text (some (string s)) = some s
content_text (some (array blocks)) = last_text user_block blocks
content_text _ = none

unfoldable pub user_message : Value → Option Text
user_message m =
    if field_is m (codes "role") (codes "user")
    then content_text (get (codes "content") m)
    else none

unfoldable pub last_user_text : Value → Option Text
last_user_text messages = and_then (as_array messages) (last_text user_message)

unfoldable pub input_text : Option Value → Option Text
input_text (some (string s)) = some s
input_text (some (array vs)) = last_user_text (array vs)
input_text _ = none

unfoldable pub request_text : Value → Option Text
request_text body =
    or_none (and_then (get (codes "messages") body) last_user_text)
      (input_text (get (codes "input") body))

-- The locals of `parse_args`.
pub record Parser : Type 0 where
  pub args : List Text
  pub current : Text
  pub in_quotes : Bool
  pub started : Bool

abbrev pub quote_mark : ℕ
quote_mark = 34

unfoldable pub push_char : Parser → ℕ → Parser
push_char p c =
    if c == quote_mark
    then record p { in_quotes = not p.in_quotes; started = true }
    else if is_whitespace c && not p.in_quotes
    then if p.started
      then record p { args = p.args ++ p.current ∷ []; current = []; started = false }
      else p
    else record p { current = p.current ++ c ∷ []; started = true }

unfoldable pub push_chars : Parser → Text → Parser
push_chars p [] = p
push_chars p (c ∷ cs) = push_chars (push_char p c) cs

unfoldable pub last_arg : Parser → List Text
last_arg p = if p.started then p.args ++ p.current ∷ [] else p.args

abbrev pub new_parser : Parser
new_parser = record { args = []; current = []; in_quotes = false; started = false }

unfoldable pub parse_args : Text → List Text
parse_args input = last_arg (push_chars new_parser input)

-- The exit code is `- code` if `negative`, else `code`.
pub record ExecOutput : Type 0 where
  pub stdout : Text
  pub stderr : Text
  pub code : ℕ
  pub negative : Bool
  pub timed_out : Bool

abbrev pub ends_line : Text → Bool
ends_line [] = false
ends_line (c ∷ []) = c == 10
ends_line (c ∷ d ∷ cs) = ends_line (d ∷ cs)

-- A line break between what is there and what follows.
unfoldable pub on_new_line : Text → Text → Text
on_new_line text more = if is_empty text || ends_line text then text ++ more else text ++ 10 ∷ more

unfoldable pub show_code : ExecOutput → Text
show_code out = if out.negative then codes "-" ++ show_nat out.code else show_nat out.code

unfoldable pub exit_note : ExecOutput → Text → Text
exit_note out text =
    if out.timed_out
    then on_new_line text (codes "(timed out, exit code " ++ (show_code out ++ codes ")"))
    else if out.code == 0
    then text
    else on_new_line text (codes "(exit code " ++ (show_code out ++ codes ")"))

unfoldable pub format_output : ExecOutput → Text
format_output out =
    let shown =
      exit_note out
        (if is_empty out.stderr then out.stdout else on_new_line out.stdout out.stderr) in
    if is_empty (trim shown) then codes "(no output)" else shown

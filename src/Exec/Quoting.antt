-- ===== src/Exec/Quoting.antt =====
-- `parse_args` and the words of a command, of src/domain/exec.rs.
use local_proxy.Base.{
  ℕ, true, false, none, some, List, [], ◌∷◌, ◌++◌, ◌≡◌, refl, ap, ◌∙◌, ◌==◌, if◌then◌else◌, Text,
  Lacks, is_whitespace, trim_start, strip_prefix-append, All, append_assoc, append-nil, sym,
  Bool-cases, inl, inr,
}
use local_proxy.Exec.{
  Parser, quote_mark, push_char, push_chars, last_arg, parse_args, split_command, after_token,
}

-- Each argument between quotation marks, with a space after it.
abbrev pub quote_all : List Text → Text
quote_all [] = []
quote_all (a ∷ words) = quote_mark ∷ (a ++ quote_mark ∷ 32 ∷ quote_all words)

abbrev quoting : List Text → Text → Parser
quoting xs current = record { args = xs; current = current; in_quotes = true; started = true }

abbrev between : List Text → Parser
between xs = record { args = xs; current = []; in_quotes = false; started = false }

append_cons : (a : Text) (c : ℕ) (b : Text) → a ++ c ∷ b ≡ (a ++ c ∷ []) ++ b
append_cons a c b = sym (append_assoc a (c ∷ []) b)

push_char-quoted :
    (xs : List Text) (current : Text) (c : ℕ)
    → (c == quote_mark) ≡ false
    → push_char (quoting xs current) c ≡ quoting xs (current ++ c ∷ [])
unfolding push_char
push_char-quoted xs current c n = elim (Bool-cases (is_whitespace c)) [
  | inl w ↦ rw (n, w) refl
  | inr w ↦ rw (n, w) refl
]

push_chars-quoted :
    (xs : List Text) (current a rest : Text)
    → Lacks quote_mark a
    → push_chars (quoting xs current) (a ++ rest) ≡ push_chars (quoting xs (current ++ a)) rest
unfolding push_chars push_char
push_chars-quoted xs current [] rest h = rw (append-nil current) refl
push_chars-quoted xs current (c ∷ a) rest (n, h) =
    ap (λ p. push_chars p (a ++ rest)) (push_char-quoted xs current c n)
    ∙ rw (append_cons current c a) (push_chars-quoted xs (current ++ c ∷ []) a rest h)

push_chars-quote_all :
    (xs words : List Text)
    → All (Lacks quote_mark) words
    → push_chars (between xs) (quote_all words) ≡ between (xs ++ words)
unfolding push_chars push_char is_whitespace
push_chars-quote_all xs [] h = rw (append-nil xs) refl
push_chars-quote_all xs (a ∷ words) (n, h) =
    rw
      (
        push_chars-quoted xs [] a (quote_mark ∷ 32 ∷ quote_all words) n,
        push_chars-quote_all (xs ++ a ∷ []) words h,
        append_assoc xs (a ∷ []) words,
      )
      refl

-- Quoted arguments that hold no quotation mark are parsed back, whatever whitespace they hold.
pub parse_args-quote_all :
    (words : List Text) → All (Lacks quote_mark) words → parse_args (quote_all words) ≡ words
unfolding parse_args last_arg
parse_args-quote_all words h = rw (push_chars-quote_all [] words h) refl

-- The command is what follows the token and its whitespace; a longer word does not match.
pub split_command-append :
    (token rest : Text)
    → split_command (token ++ rest) token ≡ elim rest [
      | [] ↦ some []
      | c ∷ cs ↦ if is_whitespace c then some (trim_start (c ∷ cs)) else none
    ]
unfolding split_command after_token
split_command-append token [] = rw (strip_prefix-append token []) refl
split_command-append token (c ∷ cs) = rw (strip_prefix-append token (c ∷ cs)) refl

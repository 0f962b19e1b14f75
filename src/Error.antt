-- ===== src/Error.antt =====
-- src/domain/error.rs: the error that a client sees, its two shapes, and reading an upstream's.
-- `print_json` is the library's compact printer.
use local_proxy.Base.{
  ℕ, ◌≤◌, Bool, false, Option, none, some, [], ◌∷◌, ◌++◌, ◌≡◌, refl, ◌==◌, if◌then◌else◌, Text,
  is_empty, codes, show_nat, trim, take, length, ltb, text_eq, text_lt, arith, length-append,
  length-take-le, Bool-cases, inl, inr,
}
use local_proxy.Json.{
  Value, null, string, bool, number, array, object, get, get_field, insert_field, as_str, and_then,
  obj, get_or,
}
use local_proxy.Router.Build.{RouterError}

pub record ApiError : Type 0 where
  pub kind : Text
  pub status : ℕ
  pub message : Text
  pub upstream_body : Option Value

abbrev pub api_error : (status : ℕ) (kind message : Text) → ApiError
api_error status kind message = record {
  kind = kind;
  status = status;
  message = message;
  upstream_body = none;
}

abbrev pub bad_request : Text → ApiError
bad_request message = api_error 400 (codes "invalid_request_error") message

abbrev pub unauthorized : Text → ApiError
unauthorized message = api_error 401 (codes "authentication_error") message

abbrev pub not_found : Text → ApiError
not_found message = api_error 404 (codes "not_found_error") message

abbrev pub internal : Text → ApiError
internal message = api_error 500 (codes "api_error") message

unfoldable pub to_anthropic_error : ApiError → Value
to_anthropic_error e = obj (
    (codes "type", string (codes "error"))
    ∷ (
      codes "error",
      obj ((codes "type", string e.kind) ∷ (codes "message", string e.message) ∷ []),
    )
    ∷ [])

unfoldable pub to_openai_error : ApiError → Value
to_openai_error e = obj (
    (
      codes "error",
      obj (
          (codes "message", string e.message)
          ∷ (codes "type", string e.kind)
          ∷ (codes "code", null)
          ∷ []),
    )
    ∷ [])

unfoldable pub default_kind_for_status : ℕ → Text
default_kind_for_status status =
    if status == 400
    then codes "invalid_request_error"
    else if status == 401
    then codes "authentication_error"
    else if status == 403
    then codes "permission_error"
    else if status == 404
    then codes "not_found_error"
    else if status == 429
    then codes "rate_limit_error"
    else codes "api_error"

-- `v.get(key).and_then(Value::as_str)` of the "error" field, or what there is already.
abbrev pub error_text : Value → Text → Text → Text
error_text body key d = get_or (and_then (and_then (get (codes "error") body) (get key)) as_str) d

abbrev pub read_error : Value → Text × Text → Text × Text
read_error body (kind, message) =
    (error_text body (codes "type") kind, error_text body (codes "message") message)

abbrev pub is_error : Value → Bool
is_error body = elim (and_then (get (codes "type") body) as_str) [
  | none ↦ false
  | some t ↦ text_eq t (codes "error")
]

module _ (print_json : Value → Text) where
  abbrev pub rendered : Value → Text
  rendered (string s) = s
  rendered v = print_json v

  abbrev pub snippet_chars : ℕ
  snippet_chars = 300

  unfoldable pub snippet : Text → Text
  snippet trimmed =
      if is_empty trimmed
      then codes "<empty body>"
      else if ltb snippet_chars (length trimmed)
      then take snippet_chars trimmed ++ 0x2026 ∷ []
      else take snippet_chars trimmed

  unfoldable pub body_snippet : Value → Text
  body_snippet null = codes "<empty body>"
  body_snippet v = snippet (trim (rendered v))

  unfoldable pub from_upstream : (status : ℕ) → Value → ApiError
  from_upstream status body =
      let first = read_error body (default_kind_for_status status, []) in
      let (kind, message) = if is_error body then read_error body first else first in
      record {
        kind = kind;
        status = status;
        message =
            if is_empty message
            then codes "upstream error (status "
              ++ (show_nat status ++ (codes "): " ++ body_snippet body))
            else message;
        upstream_body = some body;
      }

  snippet-length : (s : Text) → length (snippet s) ≤ 301
  unfolding snippet codes
  snippet-length s = elim (Bool-cases (is_empty s)) [
    | inl e ↦ rw (e) (omega arith)
    | inr e ↦ elim (Bool-cases (ltb 300 (length s))) [
      | inl l ↦
          rw (e, l) (omega (arith, length-take-le 300 s, length-append (take 300 s) (0x2026 ∷ [])))
      | inr l ↦ rw (e, l) (omega (arith, length-take-le 300 s))
    ]
  ]

  -- The part of a body that an error quotes is at most 301 characters long.
  pub body_snippet-length : (body : Value) → length (body_snippet body) ≤ 301
  unfolding body_snippet codes
  body_snippet-length null = omega arith
  body_snippet-length (bool b) = snippet-length (trim (print_json (bool b)))
  body_snippet-length (number n) = snippet-length (trim (print_json (number n)))
  body_snippet-length (string s) = snippet-length (trim s)
  body_snippet-length (array vs) = snippet-length (trim (print_json (array vs)))
  body_snippet-length (object fs) = snippet-length (trim (print_json (object fs)))

  -- An error that is sent on in the Anthropic shape is read back with its kind and message.
  pub from_upstream-to_anthropic_error :
      (e : ApiError)
      → is_empty e.message ≡ false
      → from_upstream e.status (to_anthropic_error e)
        ≡ record e { upstream_body = some (to_anthropic_error e) }
  unfolding from_upstream to_anthropic_error get_field insert_field text_eq text_lt codes
  from_upstream-to_anthropic_error e h = rw (h) refl

  -- The same for the OpenAI shape.
  pub from_upstream-to_openai_error :
      (e : ApiError)
      → is_empty e.message ≡ false
      → from_upstream e.status (to_openai_error e)
        ≡ record e { upstream_body = some (to_openai_error e) }
  unfolding from_upstream to_openai_error get_field insert_field text_eq text_lt codes
  from_upstream-to_openai_error e h = rw (h) refl

unfoldable pub from_router_error : RouterError → ApiError
from_router_error (RouterError.model_not_found model) =
    not_found (codes "proxy: unknown model " ++ model)
from_router_error (RouterError.provider_not_found provider) =
    internal (codes "provider not configured: " ++ provider)
from_router_error (RouterError.auto_model_not_configured provider) =
    not_found (codes "proxy: provider '" ++ (provider ++ codes "' has no auto_model configured"))
from_router_error RouterError.no_auto_model =
    not_found
      (codes "proxy: no provider has an auto_model configured; set auto_model in the config")

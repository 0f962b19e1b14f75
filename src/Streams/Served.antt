-- ===== src/Streams/Served.antt =====
-- The translation of a body from end to end: the decoder and the encoder of src/domain/ir, and the
-- machine and the driver of src/application/streams.rs.
use local_proxy.Base.{ℕ, Bool, true, false, Option, some, List, [], ◌∷◌, ◌≡◌, length, Text}
use local_proxy.Ir.Anthropic
use local_proxy.Ir.AnthropicClient
use local_proxy.Ir.AnthropicEncoder
use local_proxy.Ir.Emitter.{and_push}
use local_proxy.Ir.Formats.{StreamDecoder, of_anthropic, of_openai, of_responses, finish}
use local_proxy.Ir.Openai
use local_proxy.Ir.OpenaiAccepts.{weight}
use local_proxy.Ir.OpenaiClient
use local_proxy.Ir.OpenaiEncoder
use local_proxy.Ir.AnthropicHeard.{listen}
use local_proxy.Ir.Late.{Heard, hear, new_heard}
use local_proxy.Ir.Steps.{steps}
use local_proxy.Ir.Responses
use local_proxy.Ir.ResponsesClient
use local_proxy.Ir.ResponsesEncoder
use local_proxy.Ir.ResponsesEvents
use local_proxy.Ir.Types.{Event, Format}
use local_proxy.Json.{Value}
use local_proxy.Sse.Frame.{SseFrame}
use local_proxy.Streams.{new_machine, translator}
use local_proxy.Streams.Whole.{translated}
use local_proxy.Usage.{Floats}

module _ {D : Type 0} (decode : SseFrame → D → D × List Event) (finish : D → D × List Event) where
  -- The events of a body.
  unfoldable decoded : List SseFrame → D → D × List Event
  decoded [] d = finish d
  decoded (f ∷ fs) d = and_push (decode f d) (decoded fs)

-- Whether words come for open blocks only; other upstreams may send some for a block that they closed.
abbrev pub is_strict : Format → Bool
is_strict Format.openai = true
is_strict _ = false

-- What an Anthropic client may get late: from an OpenAI upstream nothing, as its answer is strict;
-- from a Responses upstream arguments of calls; from an Anthropic upstream what it sends itself.
abbrev pub LateCalls : (upstream : Format) → List Value → Type 0
LateCalls Format.responses vs = (h : Heard) × (steps listen new_heard vs ≡ some h)
LateCalls _ vs = Unit {0}

-- A whole answer, in the protocol of the client.
abbrev pub Whole : (upstream client : Format) → List Value → Type 0
Whole upstream Format.anthropic vs =
    (AnthropicClient.reads (is_strict upstream) AnthropicClient.waiting vs
      ≡ some AnthropicClient.ended)
    × LateCalls upstream vs
Whole upstream Format.openai vs =
    OpenaiClient.reads OpenaiClient.waiting vs ≡ some OpenaiClient.over
Whole upstream Format.responses vs =
    ResponsesClient.reads ResponsesClient.waiting vs ≡ some ResponsesClient.over

-- The events of an upstream that has only arguments of calls late, if it is a Responses one.
abbrev LateEvents : (upstream : Format) → List Event → Type 0
LateEvents Format.responses es = (h : Heard) × (steps hear new_heard es ≡ some h)
LateEvents _ es = Unit {0}

module _ (fl : Floats) (parse_json : Text → Option Value) where
  -- The blocks that the frames may open.
  abbrev pub blocks : Format → List SseFrame → ℕ
  blocks Format.openai fs = weight fl parse_json fs
  blocks _ fs = length fs

  abbrev unwrapped : List SseFrame → StreamDecoder → List Event
  unwrapped fs (of_anthropic d) = (Anthropic.frames fl parse_json fs d).1
  unwrapped fs (of_openai d) = (Openai.frames fl parse_json fs d).1
  unwrapped fs (of_responses d) = (Responses.frames fl parse_json fs d).1

  module _ (print_json : Value → Text) (uuid : Text) (now : ℕ) where
    -- What the machine makes of a body.
    abbrev pub payloads : (upstream client : Format) (model : Text) → List SseFrame → List Value
    payloads upstream client model fs =
        (translated fl parse_json print_json (translator fl parse_json print_json uuid now) fs
          (new_machine fl parse_json print_json uuid now upstream client model)).1

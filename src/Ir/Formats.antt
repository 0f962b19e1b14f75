-- ===== src/Ir/Formats.antt =====
-- `stream_decoder` and `stream_encoder` of src/domain/ir/mod.rs: the codec of each format, as one
-- type. `uuid` and `now` are what the library would draw for a new encoder.
use local_proxy.Base.{ℕ, Option, List, Text}
use local_proxy.Ir.Anthropic
use local_proxy.Ir.AnthropicEncoder
use local_proxy.Ir.Openai
use local_proxy.Ir.OpenaiEncoder
use local_proxy.Ir.Responses
use local_proxy.Ir.ResponsesEncoder
use local_proxy.Ir.ResponsesEvents
use local_proxy.Ir.Types.{Format, Event}
use local_proxy.Json.{Value}
use local_proxy.Sse.Frame.{SseFrame}
use local_proxy.Usage.{Floats}

pub data StreamDecoder : Type 0 where
  of_anthropic : Anthropic.Decoder → StreamDecoder
  of_openai : Openai.Decoder → StreamDecoder
  of_responses : Responses.Decoder → StreamDecoder

pub data StreamEncoder : Type 0 where
  to_anthropic : AnthropicEncoder.Encoder → StreamEncoder
  to_openai : OpenaiEncoder.Encoder → StreamEncoder
  to_responses : ResponsesEncoder.Encoder → StreamEncoder

abbrev pub stream_decoder : Format → StreamDecoder
stream_decoder Format.anthropic = of_anthropic Anthropic.new_decoder
stream_decoder Format.openai = of_openai Openai.new_decoder
stream_decoder Format.responses = of_responses Responses.new_decoder

unfoldable pub stream_encoder : (uuid : Text) (now : ℕ) → Format → (model : Text) → StreamEncoder
stream_encoder uuid now Format.anthropic model = to_anthropic (AnthropicEncoder.new_encoder model)
stream_encoder uuid now Format.openai model = to_openai (OpenaiEncoder.new_encoder uuid now model)
stream_encoder uuid now Format.responses model =
    to_responses (ResponsesEncoder.new_encoder uuid now model)

-- A method of the decoder behind the interface, with the events that it pushes.
abbrev pub over : {D : Type 0} → (D → StreamDecoder) → D × List Event → StreamDecoder × List Event
over wrap (d, out) = (wrap d, out)

abbrev pub shown : {E : Type 0} → (E → StreamEncoder) → E × List Value → StreamEncoder × List Value
shown wrap (enc, out) = (wrap enc, out)

module _ (fl : Floats) (parse_json : Text → Option Value) where
  unfoldable pub frame : SseFrame → StreamDecoder → StreamDecoder × List Event
  frame f (of_anthropic d) = over of_anthropic (Anthropic.frame fl parse_json f d)
  frame f (of_openai d) = over of_openai (Openai.frame fl parse_json f d)
  frame f (of_responses d) = over of_responses (Responses.frame fl parse_json f d)

unfoldable pub finish : StreamDecoder → StreamDecoder × List Event
finish (of_anthropic d) = over of_anthropic (Anthropic.end_stream d)
finish (of_openai d) = over of_openai (Openai.end_stream d)
finish (of_responses d) = over of_responses (Responses.end_stream d)

unfoldable pub event : (uuid : Text) → Event → StreamEncoder → StreamEncoder × List Value
event uuid e (to_anthropic enc) = shown to_anthropic (AnthropicEncoder.event uuid e enc)
event uuid e (to_openai enc) = shown to_openai (OpenaiEncoder.event e enc)
event uuid e (to_responses enc) = shown to_responses (ResponsesEvents.event e enc)

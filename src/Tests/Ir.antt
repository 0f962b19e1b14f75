-- ===== src/Tests/Ir.antt =====
-- The stream decoders at concrete frames.
use local_proxy.Base.{
  ◌++◌, List, refl, ◌<◌, true, false, none, some, [], ◌∷◌, ◌≡◌, codes, Text, text_eq, text_lt, trim,
  trim_start, trim_end, is_whitespace, Option, arith, strip_suffix, Lacks, All, lookup, is_empty,
  if◌then◌else◌,
}
use local_proxy.Ir.Anthropic.{new_decoder, frames}
use local_proxy.Ir.AnthropicAccepts.{anthropic_frames-accepts}
use local_proxy.Ir.Emitter.{u32_mod, mem, remove}
use local_proxy.Ir.Fold.{fold, parse_args}
use local_proxy.Ir.Folded.{parts, fold-parts}
use local_proxy.Ir.ResponsesBody.{args_string, any_call, decode_response, encode_response}
use local_proxy.Ir.ResponsesRoundTrip.{restored, kept, decode_response-encode_response}
use local_proxy.Ir.Media.{base64_mark, to_url, from_url, from_url-to_url}
use local_proxy.Ir.Openai
use local_proxy.Ir.OpenaiAccepts.{openai_frames-accepts, weight}
use local_proxy.Ir.Responses
use local_proxy.Ir.ResponsesAccepts.{responses_frames-accepts}
use local_proxy.Ir.Types.{Image, Block, Message, Part, Role, Event, BlockKind, StopReason, Response}
use local_proxy.Ir.Turns.{turn, spoken, by_role, push_message, push_message-spoken}
use local_proxy.Ir.Late.{Heard, hear, new_heard}
use local_proxy.Ir.ResponsesTold.{payloads, responses_frames-told}
use local_proxy.Ir.ResponsesWords.{words_in, told}
use local_proxy.Ir.Steps.{steps}
use local_proxy.Ir.Protocol.{Check, check, accepts, new_check}
use local_proxy.Json.{null, Value, string, obj, arr, get_field, insert_field}
use local_proxy.Sse.Frame.{SseFrame}
use local_proxy.Usage.{Floats, no_usage}
use local_proxy.Usage.Laws.{openai_view}

abbrev floats : Floats
floats = record { to_f64 = λ n. 0; add = λ a b. 0 }

-- A parser that knows two texts.
abbrev chunk : Value
chunk = obj (
    (
      codes "choices",
      arr (
          obj (
            (
              codes "delta",
              obj (
                  (codes "reasoning", string (codes "hm"))
                  ∷ (codes "content", string (codes "hi"))
                  ∷ (codes "tool_calls", arr (obj [] ∷ []))
                  ∷ []),
            )
            ∷ [])
          ∷ []),
    )
    ∷ [])

abbrev block : Value
block = obj (
    (codes "type", string (codes "content_block_delta"))
    ∷ (
      codes "delta",
      obj ((codes "type", string (codes "text_delta")) ∷ (codes "text", string (codes "hi")) ∷ []),
    )
    ∷ [])

abbrev parse : Value → Text → Option Value
parse v [] = none
parse v (c ∷ s) = some v

abbrev one : SseFrame
one = record { event = none; payload = 0x7b ∷ []; comments = [] }

light : weight floats (parse chunk) (one ∷ one ∷ []) < u32_mod
unfolding codes text_eq get_field insert_field text_lt trim trim_start trim_end is_whitespace
    Openai.choice_delta
light = omega arith

openai_frames-accepts_example :
    (c : Check) × (accepts true new_check
        (Openai.frames floats (parse chunk) (one ∷ one ∷ []) Openai.new_decoder).1
      ≡ some c)
    × ((c.finished ≡ true) × (c.opened ≡ []) × (c.seen < u32_mod))
openai_frames-accepts_example = openai_frames-accepts floats (parse chunk) (one ∷ one ∷ []) light

anthropic_frames-accepts_example :
    (c : Check) × (accepts false new_check
        (frames floats (parse block) (one ∷ one ∷ []) new_decoder).1
      ≡ some c)
    × ((c.finished ≡ true) × (c.opened ≡ []) × (c.seen < u32_mod))
anthropic_frames-accepts_example =
    anthropic_frames-accepts floats (parse block) (one ∷ one ∷ []) (omega arith)

-- A call that arrives only as a finished item.
abbrev finished_call : Value
finished_call = obj (
    (codes "type", string (codes "response.output_item.done"))
    ∷ (
      codes "item",
      obj (
          (codes "type", string (codes "function_call"))
          ∷ (codes "id", string (codes "fc"))
          ∷ (codes "arguments", string (codes "{}"))
          ∷ []),
    )
    ∷ [])

responses_frames-accepts_example :
    (c : Check) × (accepts false new_check
        (Responses.frames floats (parse finished_call) (one ∷ one ∷ []) Responses.new_decoder).1
      ≡ some c)
    × ((c.finished ≡ true)
        × (c.opened ≡ [])
        × (c.seen < u32_mod)
        × ((h : Heard) × (steps hear new_heard
                (Responses.frames floats
                  (parse finished_call)
                  (one ∷ one ∷ [])
                  Responses.new_decoder).1
              ≡ some h)))
responses_frames-accepts_example =
    responses_frames-accepts floats (parse finished_call) (one ∷ one ∷ []) (omega arith)

responses_frames-told_example :
    words_in
      (Responses.frames floats (parse finished_call) (one ∷ one ∷ []) Responses.new_decoder).1
    ≡ told [] (payloads floats (parse finished_call) (one ∷ one ∷ []))
responses_frames-told_example = responses_frames-told floats (parse finished_call) (one ∷ one ∷ [])

-- A stream with a text and a call.
abbrev stream : List Event
stream =
    Event.start [] []
    ∷ Event.block_start 0 BlockKind.text
    ∷ Event.delta 0 (codes "hi")
    ∷ Event.block_stop 0
    ∷ Event.block_start 1 (BlockKind.tool_call (codes "c1") (codes "f"))
    ∷ Event.delta 1 (codes "{")
    ∷ Event.delta 1 (codes "}")
    ∷ Event.block_stop 1
    ∷ Event.finish StopReason.tool_use
    ∷ []

abbrev closed : Check
closed = record { started = true; seen = 2; opened = []; finished = true }

stream-accepted : accepts true new_check stream ≡ some closed
unfolding accepts check mem remove codes
stream-accepted = refl

fold-parts_example : (fold (parse null) stream).content ≡ parts (parse null) stream
fold-parts_example = fold-parts (parse null) true stream closed stream-accepted

abbrev answer : Response
answer = record {
  id = codes "r1";
  model = codes "m";
  content =
      Part.text (codes "a")
      ∷ Part.tool_call (record { id = codes "c1"; name = codes "f"; arguments = null })
      ∷ Part.text (codes "b")
      ∷ [];
  stop = StopReason.tool_use;
  created = some 7;
  usage = no_usage;
  ext = [];
}

abbrev print : Value → Text
print v = 0x6e ∷ []

null-read : All (λ p. restored (parse null) print p ≡ p) answer.content
unfolding parse_args args_string codes trim trim_start trim_end is_whitespace
null-read = (refl, (refl, (refl, record {})))

r1-id : is_empty answer.id ≡ false
unfolding codes
r1-id = refl

no_error : lookup (codes "responses:error") answer.ext ≡ none
unfolding lookup
no_error = refl

no_status : lookup (codes "responses:status") answer.ext ≡ none
unfolding lookup
no_status = refl

decode_response-encode_response_example :
    decode_response (parse null) floats (encode_response print [] 9 answer) ≡ record {
      id = codes "r1";
      model = codes "m";
      content = kept answer.content;
      stop = if any_call (kept answer.content) then StopReason.tool_use else StopReason.end_turn;
      created = some 7;
      usage = openai_view no_usage;
      ext = (codes "responses:status", string (codes "completed")) ∷ [];
    }
decode_response-encode_response_example =
    decode_response-encode_response (parse null) print floats [] 9 answer r1-id no_error no_status
      null-read

abbrev call : Block
call = record {
  part = Part.tool_call (record { id = []; name = []; arguments = null });
  cache = none;
}

abbrev words : Block
words = record { part = Part.text (0x68 ∷ []); cache = none }

abbrev talk : List Message
talk = turn Role.assistant (call ∷ []) ∷ []

push_message-spoken_example :
    spoken (push_message talk Role.assistant (call ∷ []))
    ≡ spoken talk ++ by_role Role.assistant (call ∷ [])
push_message-spoken_example = push_message-spoken talk Role.assistant (call ∷ [])

no_mark : strip_suffix base64_mark (codes "a/b") ≡ none
unfolding strip_suffix codes text_eq
no_mark = refl

no_comma : Lacks b',' (codes "a/b")
unfolding codes
no_comma = (refl, (refl, (refl, record {})))

from_url-to_url_example :
    (from_url (to_url (Image.base64 (codes "a/b") (codes "QQ")))
      ≡ Image.base64 (codes "a/b") (codes "QQ"))
    × (to_url (from_url (codes "data:" ++ (codes "a/b" ++ b',' ∷ codes "QQ")))
        ≡ codes "data:" ++ (codes "a/b" ++ (base64_mark ++ b',' ∷ codes "QQ")))
from_url-to_url_example = from_url-to_url (codes "a/b") (codes "QQ") no_comma no_mark

-- ===== src/Ir/Aggregate.antt =====
-- `aggregate` of src/domain/ir/responses.rs, and `aggregate_responses` and `stream_usage` of
-- src/application/streams.rs: one response out of a stream, and its usage.
use local_proxy.Base.{
  Bool, true, false, Option, none, some, List, [], ◌∷◌, if◌then◌else◌, Text, is_empty, codes,
}
use local_proxy.Ir.Emitter.{and_push}
use local_proxy.Ir.Fold.{fold}
use local_proxy.Ir.Responses.{Decoder, new_decoder, value, end_stream}
use local_proxy.Ir.ResponsesBody.{decode_response}
use local_proxy.Ir.Types.{Event, Part, Response}
use local_proxy.Json.{Value, Fields, no_fields, field, object, insert_field, get, is_null}
use local_proxy.Sse.Frame.{is_done, json}
use local_proxy.Sse.Stream.{Polled, frame, read_error}
use local_proxy.Usage.{is_default, Floats, TokenUsage, no_usage, usage_from_frame, merge_usage}

-- `insert` of each field that is not null.
unfoldable pub insert_fields : Fields → Fields → Fields
insert_fields no_fields acc = acc
insert_fields (field k v fs) acc =
    insert_fields fs (if is_null v then acc else insert_field k v acc)

unfoldable pub merge_envelope : Option Value → Fields → Fields
merge_envelope (some (object r)) acc = insert_fields r acc
merge_envelope _ acc = acc

unfoldable pub envelope_of : List Value → Fields → Fields
envelope_of [] acc = acc
envelope_of (v ∷ vs) acc = envelope_of vs (merge_envelope (get (codes "response") v) acc)

abbrev pub no_parts : List Part → Bool
no_parts [] = true
no_parts (_ ∷ _) = false

-- The envelope wins where it carries something.
unfoldable pub prefer : (env resp : Response) → Response
prefer env resp = record {
  id = if is_empty env.id then resp.id else env.id;
  model = if is_empty env.model then resp.model else env.model;
  content = if no_parts env.content then resp.content else env.content;
  stop = if no_parts env.content then resp.stop else env.stop;
  created = env.created;
  usage = if is_default env.usage then resp.usage else env.usage;
  ext = env.ext;
}

module _ (fl : Floats) (parse_json : Text → Option Value) where
  -- The events of the payloads, and of the end.
  unfoldable pub decode_all : List Value → Decoder → Decoder × List Event
  decode_all [] d = end_stream d
  decode_all (v ∷ vs) d = and_push (value fl parse_json v d) (decode_all vs)

  unfoldable pub aggregate : List Value → Response
  aggregate vs =
      prefer (decode_response parse_json fl (object (envelope_of vs no_fields)))
        (fold parse_json (decode_all vs new_decoder).1)

  abbrev pub cons_option : Option Value → List Value → List Value
  cons_option none vs = vs
  cons_option (some v) vs = v ∷ vs

  -- The loop of `aggregate_responses`.
  unfoldable pub heard : List Polled → List Value
  heard [] = []
  heard (read_error e ∷ ps) = []
  heard (frame f ∷ ps) =
      let rest = heard ps in if is_done f then [] else cons_option (json parse_json f) rest

  unfoldable pub aggregate_responses : List Polled → Response
  aggregate_responses ps = aggregate (heard ps)

  abbrev pub add_usage : Option Value → Option TokenUsage → Option TokenUsage
  add_usage none acc = acc
  add_usage (some v) acc =
      let part = usage_from_frame fl v in
      if is_default part
      then acc
      else elim acc [ none ↦ some (merge_usage no_usage part) | some u ↦ some (merge_usage u part) ]

  -- The loop of `stream_usage`; none as long as nothing was reported.
  unfoldable pub stream_usage : List Polled → Option TokenUsage → Option TokenUsage
  stream_usage [] acc = acc
  stream_usage (read_error e ∷ ps) acc = acc
  stream_usage (frame f ∷ ps) acc = stream_usage ps (add_usage (json parse_json f) acc)

-- ===== src/Tests/Streams.antt =====
-- Streams at concrete bodies, and the recorder at concrete requests.
use local_proxy.Base.{
  ◌+◌, ◌≤◌, ◌<◌, true, Option, none, some, List, [], ◌∷◌, ◌++◌, ◌≡◌, refl, ◌⊎◌, arith, Text, codes,
  text_eq, text_lt, trim, trim_start, trim_end, is_whitespace, map, length,
}
use local_proxy.Cache.Outcome.{CacheObservation, changes_from, request_diagnostics}
use local_proxy.Config.{ProviderFormat}
use local_proxy.Ir.Emitter.{u32_mod}
use local_proxy.Ir.Formats.{StreamDecoder, StreamEncoder}
use local_proxy.Ir.Openai
use local_proxy.Ir.Types.{Format}
use local_proxy.Json.{Value, null, string, obj, arr, get_field, insert_field}
use local_proxy.Recording.{session_limit, changes_since, observe_cache}
use local_proxy.Recording.Sessions.{
  Observed, remembered, last_observation, observe_cache-remembered,
}
use local_proxy.Sse.Frame.{SseFrame}
use local_proxy.Sse.Stream.{Item, chunk, failed, Polled, frame, read_error, scan}
use local_proxy.Streams.{IrMachine, to_event, build, new_machine, translator}
use local_proxy.Streams.Scanned.{scan_passthrough, polls}
use local_proxy.Streams.Verbatim.{nones, report_of, totals, chunks, scan_passthrough-verbatim}
use local_proxy.Streams.Served.{Whole, blocks, payloads}
use local_proxy.Streams.Whole.{sound, translated, noted, told, build-translated}
use local_proxy.Usage.{Floats, no_usage}

abbrev floats : Floats
floats = record { to_f64 = λ n. 0; add = λ a b. 0 }

-- A chunk of an OpenAI stream with text and a tool call, for a parser that reads nothing else.
abbrev talk : Value
talk = obj (
    (
      codes "choices",
      arr (
          obj (
            (
              codes "delta",
              obj (
                  (codes "content", string (codes "hi"))
                  ∷ (codes "tool_calls", arr (obj [] ∷ []))
                  ∷ []),
            )
            ∷ [])
          ∷ []),
    )
    ∷ [])

abbrev parse : Text → Option Value
parse [] = none
parse (c ∷ s) = some talk

abbrev print : Value → Text
print v = []

abbrev one : SseFrame
one = record { event = none; payload = 0x7b ∷ []; comments = [] }

-- Two chunks, and a third that comes after a read error.
abbrev body : List Polled
body = frame one ∷ frame one ∷ read_error [] ∷ frame one ∷ []

few : blocks floats parse Format.openai (sound body) < u32_mod
unfolding codes text_eq get_field insert_field text_lt trim trim_start trim_end is_whitespace
    Openai.choice_delta
few = omega arith

abbrev served : List Value
served = payloads floats parse print [] 7 Format.openai Format.responses (codes "m") (sound body)

abbrev served_late : List Value
served_late =
    payloads floats parse print [] 7 Format.responses Format.anthropic (codes "m") (sound body)

abbrev start : IrMachine StreamDecoder StreamEncoder
start = new_machine floats parse print [] 7 Format.openai Format.responses (codes "m")

build-translated_example :
    ((build floats parse print
        (translator floats parse print [] 7)
        (length served + 1)
        true
        start
        body).0
      ≡ map (to_event print) served)
    × ((build floats parse print
          (translator floats parse print [] 7)
          (length served + 1)
          true
          start
          body).1.finalized
        ≡ true)
    × ((build floats parse print
          (translator floats parse print [] 7)
          (length served + 1)
          true
          start
          body).1.reports
        ≡ told floats parse print
            (translator floats parse print [] 7)
            true
            (translated floats parse print
              (translator floats parse print [] 7)
              (sound body)
              start).0
            (noted floats parse print
              (translator floats parse print [] 7)
              (sound body)
              (none, none)))
build-translated_example =
    build-translated floats parse print (translator floats parse print [] 7) (length served + 1)
      true body start (omega arith)

-- A frame in two chunks, with a read error between them.
abbrev bytes : List Item
bytes = chunk (0x64 ∷ 0x61 ∷ []) ∷ failed [] ∷ chunk (0x74 ∷ 0x61 ∷ 0x3a ∷ 0x31 ∷ []) ∷ []

scan_passthrough-verbatim_example :
    ((polls floats parse (3 + 2) (scan_passthrough bytes true)).0
      ≡ map some bytes ++ nones floats parse 2)
    × ((polls floats parse (3 + 2) (scan_passthrough bytes true)).1.reports
        ≡ report_of floats parse true
            (totals floats parse (scan (chunks floats parse bytes)) (no_usage, (none, none))))
scan_passthrough-verbatim_example = scan_passthrough-verbatim floats parse 1 bytes true

abbrev seen : (account : Text) → CacheObservation
seen account = record {
  provider = codes "chatgpt";
  model = codes "gpt";
  account = account;
  prefix_digest = [];
  key_digest = none;
}

abbrev request : (session account : Text) → Observed
request session account = record {
  session = session;
  format = ProviderFormat.openai_responses;
  observation = seen account;
  body = null;
}

abbrev earlier : List Observed
earlier = request (0x62 ∷ []) (0x79 ∷ []) ∷ request (0x61 ∷ []) (0x78 ∷ []) ∷ []

abbrev now : Observed
now = request (0x61 ∷ []) (0x79 ∷ [])

observe_cache-remembered_example :
    (length (remembered (now ∷ earlier)) ≤ session_limit)
    × ((observe_cache now.session now.format now.observation now.body (remembered earlier)).1
          ≡ request_diagnostics now.format now.body
        ⊎ (o : CacheObservation) × (last_observation now.session earlier ≡ some o)
          × ((observe_cache now.session now.format now.observation now.body (remembered earlier)).1
              ≡ request_diagnostics now.format now.body ++ changes_from now.observation o))
    × (session_limit < 2
        ⊎ (observe_cache now.session now.format now.observation now.body (remembered earlier)).1
          ≡ request_diagnostics now.format now.body
            ++ changes_since now.observation (last_observation now.session earlier))
observe_cache-remembered_example = observe_cache-remembered earlier now refl

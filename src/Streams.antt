-- ===== src/Streams.antt =====
-- src/application/streams.rs: the driver that turns the frames of an upstream's body into a
-- client's events, by a machine, and the machine that translates between formats.
use local_proxy.Base.{
  ℕ, zero, suc, Bool, true, false, not, ◌||◌, Option, none, some, List, [], ◌∷◌, ◌++◌,
  if◌then◌else◌, Text, codes, is_some, map, text_eq, split_once, trim,
}
use local_proxy.Ir.Emitter.{events}
use local_proxy.Ir.Formats
use local_proxy.Ir.Formats.{StreamDecoder, StreamEncoder, stream_decoder, stream_encoder}
use local_proxy.Ir.Types.{Event, Format}
use local_proxy.Json.{Value, string, get, as_str, and_then, or_none}
use local_proxy.Sse.Frame.{SseFrame}
use local_proxy.Sse.Stream.{Polled, frame, read_error}
use local_proxy.Usage.{Floats, TokenUsage, no_usage}
use local_proxy.Usage.Energy.{EnergyCost, energy_from_payload, cost_from_payload}
pub mod Whole
pub mod Served
pub mod Scanned
pub mod Verbatim

-- An event for the client.
pub record SseEvent : Type 0 where
  pub event : Option Text
  pub payload : Text

-- What a capture is told when the stream ends.
pub record Report : Type 0 where
  pub usage : TokenUsage
  pub energy : Option EnergyCost
  pub cost : Option EnergyCost

-- A machine's methods, over its state.
pub record Machine (M : Type 0) : Type 0 where
  pub process : SseFrame → M → M × List Value
  pub finalize : M → M × List Value
  pub usage_of : M → TokenUsage

unfoldable pub to_event : (Value → Text) → Value → SseEvent
to_event print_json (string s) = record { event = none; payload = s }
to_event print_json v = record {
  event = and_then (get (codes "type") v) as_str;
  payload = print_json v;
}

module _ (fl : Floats) (parse_json : Text → Option Value) where
  unfoldable pub energy_comment :
      Text → Option Value → Option (Option EnergyCost × Option EnergyCost)
  energy_comment kind none = none
  energy_comment kind (some v) =
      if text_eq kind (codes "energy")
      then some (energy_from_payload fl v, none)
      else if text_eq kind (codes "cost")
      then some (none, cost_from_payload fl v)
      else none

  abbrev split_comment : Option (Text × Text) → Option (Option EnergyCost × Option EnergyCost)
  split_comment none = none
  split_comment (some (kind, json)) = energy_comment kind (parse_json (trim json))

  unfoldable pub parse_energy_comment : Text → Option (Option EnergyCost × Option EnergyCost)
  parse_energy_comment comment = split_comment (split_once b' ' comment)

  -- The loop over a frame's comments: what a comment reports replaces what was known.
  unfoldable pub note_comments :
      List Text → Option EnergyCost × Option EnergyCost → Option EnergyCost × Option EnergyCost
  note_comments [] known = known
  note_comments (c ∷ cs) (energy, cost) = note_comments cs (elim (parse_energy_comment c) [
    | none ↦ (energy, cost)
    | some (e, k) ↦ (or_none e energy, or_none k cost)
  ])

-- `reports` is what the capture has been told.
pub record Driver (M : Type 0) : Type 0 where
  pub machine : M
  pub pending : List Value
  pub done : Bool
  pub finalized : Bool
  pub captured : Bool
  pub reported : Bool
  pub known : Option EnergyCost × Option EnergyCost
  pub reports : List Report

pub data Driven (M : Type 0) : Type 0 where
  yielded : SseEvent → List Polled → Driver M → Driven M
  stopped : Driver M → Driven M

module _ {M : Type 0} (fl : Floats) (parse_json : Text → Option Value) (print_json : Value → Text)
    (machine : Machine M) where
  -- The report at the end of the stream.
  unfoldable pub report_end : Driver M → Driver M
  report_end st = record st {
    reported = true;
    reports =
        if st.reported || not st.captured
        then st.reports
        else st.reports
          ++ record { usage = machine.usage_of st.machine; energy = st.known.0; cost = st.known.1 }
            ∷ [];
  }

  -- The first pending payload, if there is one.
  unfoldable pub deliver : List Polled → Driver M → List Value → Driven M → Driven M
  deliver frames st [] otherwise = otherwise
  deliver frames st (v ∷ vs) otherwise =
      yielded (to_event print_json v) frames (record st { pending = vs })

  -- The branch `if st.done`.
  unfoldable pub at_end : List Polled → Driver M → Driven M
  at_end frames st =
      let (m, out) = machine.finalize st.machine in
      let st' = report_end (record st { finalized = true; machine = m; pending = out }) in
      if st.finalized then stopped st else deliver frames st' out (stopped st')

  unfoldable pub on_frame : SseFrame → Driver M → Driver M
  on_frame f st =
      let (m, out) = machine.process f st.machine in
      record st {
        known = note_comments fl parse_json f.comments st.known;
        machine = m;
        pending = out;
      }

  -- The loop while nothing is pending and the body is not at its end.
  unfoldable pub pump : List Polled → Driver M → Driven M
  pump [] st = at_end [] (record st { done = true })
  pump (read_error e ∷ frames) st = at_end frames (record st { done = true })
  pump (frame f ∷ frames) st =
      let st' = on_frame f st in deliver frames st' st'.pending (pump frames st')

  unfoldable pub drive : List Polled → Driver M → Driven M
  drive frames st =
      deliver frames st st.pending (if st.done then at_end frames st else pump frames st)

  -- `unfold`: the events of `fuel` polls at most, and the driver's last state.
  unfoldable pub unfold_driver : ℕ → List Polled → Driver M → List SseEvent × Driver M
  unfold_driver zero frames st = ([], st)
  unfold_driver (suc fuel) frames st = elim (drive frames st) [
    | stopped st' ↦ ([], st')
    | yielded e rest st' ↦ let (es, last) = unfold_driver fuel rest st' in (e ∷ es, last)
  ]

  abbrev pub new_driver : (captured : Bool) → M → Driver M
  new_driver captured m = record {
    machine = m;
    pending = [];
    done = false;
    finalized = false;
    captured = captured;
    reported = false;
    known = (none, none);
    reports = [];
  }

  -- `build`.
  unfoldable pub build : ℕ → (captured : Bool) → M → List Polled → List SseEvent × Driver M
  build fuel captured m frames = unfold_driver fuel frames (new_driver captured m)

-- `IrMachine`, over the methods of its decoder and encoder.
pub record IrMachine (D E : Type 0) : Type 0 where
  pub dec : D
  pub enc : E
  pub usage : TokenUsage

abbrev pub last_usage : List Event → TokenUsage → TokenUsage
last_usage [] u = u
last_usage (Event.usage v ∷ es) u = last_usage es v
last_usage (_ ∷ es) u = last_usage es u

module _ {D E : Type 0} (decode : SseFrame → D → D × List Event) (finish : D → D × List Event)
    (encode : Event → E → E × List Value) where
  unfoldable pub encode_all : List Event → IrMachine D E → IrMachine D E × List Value
  encode_all es m =
      let (enc, out) = events encode es m.enc in
      (record m { enc = enc; usage = last_usage es m.usage }, out)

  unfoldable pub process : SseFrame → IrMachine D E → IrMachine D E × List Value
  process f m = let (dec, es) = decode f m.dec in encode_all es (record m { dec = dec })

  unfoldable pub finalize : IrMachine D E → IrMachine D E × List Value
  finalize m = let (dec, es) = finish m.dec in encode_all es (record m { dec = dec })

  abbrev pub ir_machine : Machine (IrMachine D E)
  ir_machine = record { process = process; finalize = finalize; usage_of = λ m. m.usage }

-- `IrMachine::new`, and `translate` with it.
module _ (fl : Floats) (parse_json : Text → Option Value) (print_json : Value → Text) (uuid : Text)
    (now : ℕ) where
  unfoldable pub new_machine :
      (upstream client : Format) (model : Text) → IrMachine StreamDecoder StreamEncoder
  new_machine upstream client model = record {
    dec = stream_decoder upstream;
    enc = stream_encoder uuid now client model;
    usage = no_usage;
  }

  abbrev pub translator : Machine (IrMachine StreamDecoder StreamEncoder)
  translator = ir_machine (Formats.frame fl parse_json) Formats.finish (Formats.event uuid)

  unfoldable pub translate :
      ℕ
      → List Polled
      → (upstream client : Format) (model : Text) (captured : Bool)
      → List SseEvent × Driver (IrMachine StreamDecoder StreamEncoder)
  translate fuel body upstream client model captured =
      build fl parse_json print_json translator fuel captured (new_machine upstream client model)
        body

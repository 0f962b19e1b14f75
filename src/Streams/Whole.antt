-- ===== src/Streams/Whole.antt =====
-- The driver of src/application/streams.rs over a whole body.
use local_proxy.Base.{
  ℕ, zero, suc, ◌<◌, Bool, true, false, Option, none, List, [], ◌∷◌, ◌++◌, ◌≡◌, refl, ◌∙◌, arith,
  map, length, if◌then◌else◌, Text,
}
use local_proxy.Json.{Value}
use local_proxy.Sse.Frame.{SseFrame}
use local_proxy.Sse.Stream.{Polled, frame, read_error}
use local_proxy.Streams.{
  Machine, Driver, Report, SseEvent, to_event, note_comments, report_end, deliver, at_end, on_frame,
  pump, drive, unfold_driver, build,
}
use local_proxy.Usage.{Floats}
use local_proxy.Usage.Energy.{EnergyCost}

-- The frames before the body fails or ends.
abbrev pub sound : List Polled → List SseFrame
sound [] = []
sound (frame f ∷ ps) = f ∷ sound ps
sound (read_error e ∷ ps) = []

module _ {M : Type 0} (fl : Floats) (parse_json : Text → Option Value) (print_json : Value → Text)
    (machine : Machine M) where
  -- The machine on all frames, and then at the end.
  unfoldable pub translated : List SseFrame → M → M × List Value
  translated [] m = machine.finalize m
  translated (f ∷ fs) m =
      let (m1, out) = machine.process f m in let (m2, more) = translated fs m1 in (m2, out ++ more)

  abbrev pub noted :
      List SseFrame → Option EnergyCost × Option EnergyCost → Option EnergyCost × Option EnergyCost
  noted [] known = known
  noted (f ∷ fs) known = noted fs (note_comments fl parse_json f.comments known)

  abbrev shown : List Value → List SseEvent
  shown vs = map (to_event print_json) vs

  abbrev running :
      (captured : Bool) → M → List Value → Option EnergyCost × Option EnergyCost → Driver M
  running captured m pending known = record {
    machine = m;
    pending = pending;
    done = false;
    finalized = false;
    captured = captured;
    reported = false;
    known = known;
    reports = [];
  }

  abbrev pub told : (captured : Bool) → M → Option EnergyCost × Option EnergyCost → List Report
  told captured m known =
      if captured
      then record { usage = machine.usage_of m; energy = known.0; cost = known.1 } ∷ []
      else []

  abbrev over :
      (captured : Bool) → M → List Value → Option EnergyCost × Option EnergyCost → Driver M
  over captured m pending known = record {
    machine = m;
    pending = pending;
    done = true;
    finalized = true;
    captured = captured;
    reported = true;
    known = known;
    reports = told captured m known;
  }

  abbrev runs : ℕ → List Polled → Driver M → List SseEvent × Driver M
  runs = unfold_driver fl parse_json print_json machine

  runs-over :
      (captured : Bool) (fuel : ℕ) (ps : List Polled) (m : M) (vs : List Value)
      (known : Option EnergyCost × Option EnergyCost)
      → length vs < fuel
      → runs fuel ps (over captured m vs known) ≡ (shown vs, over captured m [] known)
  unfolding unfold_driver drive deliver at_end
  runs-over captured zero ps m vs known h = absurd (omega arith)
  runs-over captured (suc fuel) ps m [] known h = refl
  runs-over captured (suc fuel) ps m (v ∷ vs) known h =
      rw (runs-over captured fuel ps m vs known (omega arith)) refl

  runs-pending :
      (captured : Bool) (fuel : ℕ) (ps : List Polled) (m : M) (v : Value) (vs : List Value)
      (known : Option EnergyCost × Option EnergyCost)
      → runs (suc fuel) ps (running captured m (v ∷ vs) known) ≡ (
        to_event print_json v ∷ (runs fuel ps (running captured m vs known)).0,
        (runs fuel ps (running captured m vs known)).1,
      )
  unfolding unfold_driver drive deliver
  runs-pending captured fuel ps m v vs known = refl

  runs-frame :
      (captured : Bool) (fuel : ℕ) (f : SseFrame) (ps : List Polled) (m : M)
      (known : Option EnergyCost × Option EnergyCost)
      → runs (suc fuel) (frame f ∷ ps) (running captured m [] known)
        ≡ runs (suc fuel) ps (
            running captured
              (machine.process f m).0
              (machine.process f m).1
              (note_comments fl parse_json f.comments known))
  unfolding unfold_driver drive deliver pump on_frame
  runs-frame captured fuel f ps m known = refl

  runs-end :
      (captured : Bool) (fuel : ℕ) (m : M) (known : Option EnergyCost × Option EnergyCost)
      → runs (suc fuel) [] (running captured m [] known)
        ≡ runs (suc fuel) [] (over captured (machine.finalize m).0 (machine.finalize m).1 known)
  unfolding unfold_driver drive deliver pump at_end report_end
  runs-end true fuel m known = refl
  runs-end false fuel m known = refl

  runs-error :
      (captured : Bool) (fuel : ℕ) (e : Text) (ps : List Polled) (m : M)
      (known : Option EnergyCost × Option EnergyCost)
      → runs (suc fuel) (read_error e ∷ ps) (running captured m [] known)
        ≡ runs (suc fuel) ps (over captured (machine.finalize m).0 (machine.finalize m).1 known)
  unfolding unfold_driver drive deliver pump at_end report_end
  runs-error true fuel e ps m known = refl
  runs-error false fuel e ps m known = refl

  runs-translated :
      (captured : Bool) (fuel : ℕ) (ps : List Polled) (m : M) (vs : List Value)
      (known : Option EnergyCost × Option EnergyCost)
      → length (vs ++ (translated (sound ps) m).1) < fuel
      → runs fuel ps (running captured m vs known) ≡ (
        shown (vs ++ (translated (sound ps) m).1),
        over captured (translated (sound ps) m).0 [] (noted (sound ps) known),
      )
  unfolding translated
  runs-translated captured zero ps m vs known h = absurd (omega arith)
  runs-translated captured (suc fuel) ps m (v ∷ vs) known h =
      runs-pending captured fuel ps m v vs known
      ∙ rw (runs-translated captured fuel ps m vs known (omega arith)) refl
  runs-translated captured (suc fuel) [] m [] known h =
      runs-end captured fuel m known
      ∙ runs-over captured (suc fuel) [] (machine.finalize m).0 (machine.finalize m).1 known h
  runs-translated captured (suc fuel) (read_error e ∷ ps) m [] known h =
      runs-error captured fuel e ps m known
      ∙ runs-over captured (suc fuel) ps (machine.finalize m).0 (machine.finalize m).1 known h
  runs-translated captured (suc fuel) (frame f ∷ ps) m [] known h =
      runs-frame captured fuel f ps m known
      ∙ runs-translated captured (suc fuel) ps (machine.process f m).0 (machine.process f m).1
          (note_comments fl parse_json f.comments known) h

  -- Polled more often than there are payloads, the driver ends by itself. Its events are the
  -- payloads of the frames before the first read error, in order, and those of the machine's end;
  -- and if it is captured, the usage and the metadata of all of that are reported, once.
  pub build-translated :
      (fuel : ℕ) (captured : Bool) (ps : List Polled) (m : M)
      → length (translated (sound ps) m).1 < fuel
      → ((build fl parse_json print_json machine fuel captured m ps).0
          ≡ map (to_event print_json) (translated (sound ps) m).1)
        × ((build fl parse_json print_json machine fuel captured m ps).1.finalized ≡ true)
        × ((build fl parse_json print_json machine fuel captured m ps).1.reports
            ≡ told captured (translated (sound ps) m).0 (noted (sound ps) (none, none)))
  unfolding build
  build-translated fuel captured ps m h =
      rw (runs-translated captured fuel ps m [] (none, none) h) (refl, refl, refl)

-- ===== src/Eventing.antt =====
-- The connection to the broker: go/cmd/api/eventing.go, with `lazyPublisher` of go/cmd/api/main.go and the
-- callback that `run` gives to `connectInBackground`. The goroutine is a machine that takes one step at a
-- time; between any two steps the handlers read `held`. A connection is known by the attempt that made it.
pub mod Invariant
pub mod Liveness
use foto.Base.Duration.{second}
use foto.Base.{
  ℕ, suc, ◌+◌, ◌*◌, ◌^◌, Bool, true, false, ◌&&◌, Option, none, some, ltb, if◌then◌else◌,
}

abbrev pub initial_delay : ℕ
initial_delay = second

abbrev pub max_delay : ℕ
max_delay = 30 * second

unfoldable pub next_delay : ℕ → ℕ
next_delay delay =
    if ltb delay max_delay
    then (if ltb max_delay (delay * 2) then max_delay else delay * 2)
    else delay

-- Where the goroutine stands.
pub data Pc : Type 0 where
  dialing : Pc  -- before `ev.connect`
  waiting : Pc  -- in the `select`
  installed : Pc  -- before `ev.held.Store`
  announcing : Pc  -- before `ev.registerProjections`
  registered : Pc  -- before `ev.run`
  replayed : Pc  -- before `ev.arm`
  finished : Pc

pub record Eventing : Type 0 where
  pub stream : Option ℕ
  pub publisher : Option ℕ
  pub mux : Option ℕ
  pub held : Option ℕ
  pub subscribed : Bool
  pub running : Bool
  pub armed : Bool
  pub attempt : ℕ
  pub delay : ℕ
  pub pc : Pc

-- `openEventing`, and the goroutine before its first attempt.
abbrev pub opened : Eventing
opened = record {
  stream = none;
  publisher = none;
  mux = none;
  held = none;
  subscribed = false;
  running = false;
  armed = false;
  attempt = 1;
  delay = initial_delay;
  pc = dialing;
}

-- What a step meets: `jetstream.New` and `metatagger.New` succeed, the context is done while the goroutine
-- waits, `mux.Run` succeeds.
pub record Answer : Type 0 where
  pub dials : Bool
  pub builds : Bool
  pub cancelled : Bool
  pub runs : Bool

-- `connect` up to the end of its critical section.
unfoldable pub connect : Answer → Eventing → Eventing
connect a s =
    if a.dials && a.builds
    then record s {
      stream = some s.attempt;
      publisher = some s.attempt;
      mux = some s.attempt;
      pc = installed;
    }
    else record s { pc = waiting }

unfoldable pub wait : Answer → Eventing → Eventing
wait a s =
    if a.cancelled
    then record s { pc = finished }
    else record s { attempt = suc s.attempt; delay = next_delay s.delay; pc = dialing }

-- Without a mux nothing is subscribed.
unfoldable pub register_projections : Eventing → Eventing
register_projections s = elim s.mux [
  | none ↦ record s { pc = registered }
  | some conn ↦ record s { subscribed = true; pc = registered }
]

-- `run`: without a mux it returns without an error, and an error ends the callback.
unfoldable pub run : Answer → Eventing → Eventing
run a s = elim s.mux [
  | none ↦ record s { pc = replayed }
  | some conn ↦
      if a.runs then record s { running = true; pc = replayed } else record s { pc = finished }
]

abbrev pub step_at : Pc → Answer → Eventing → Eventing
unfolding connect wait register_projections run next_delay
step_at dialing a s = connect a s
step_at waiting a s = wait a s
step_at installed a s = record s { held = some s.attempt; pc = announcing }
step_at announcing a s = register_projections s
step_at registered a s = run a s
step_at replayed a s = record s { armed = true; pc = finished }
step_at finished a s = s

unfoldable pub advance : Answer → Eventing → Eventing
unfolding step_at
advance a s = step_at s.pc a s

-- The states that a run can be in, whatever it meets.
pub data Reach : Eventing → Type 0 where
  start : Reach opened
  later : {s : Eventing} → Reach s → (a : Answer) → Reach (advance a s)

-- `publisherOrNil`; `lazyPublisher` asks it for each message that it builds, and for each that it publishes.
abbrev pub publisher_or_nil : Eventing → Option ℕ
publisher_or_nil s = s.held

-- `close`: the stream that is closed.
abbrev pub close : Eventing → Option ℕ
close s = s.stream

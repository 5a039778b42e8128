-- ===== src/A2a/Streaming.antt =====
-- What a client sees of a streamed turn.
use Prim.Native.String.{◌++◌ as ◌<>◌}
use text.Mathlib.TextLemmas.{nil-append}
use agent_ship.Prelude.{
  String, ◌≡◌, refl, sym, ap, ◌∙◌, true, false, none, some, List, [], ◌∷◌, ◌++◌, map, ◌==◌,
  if◌then◌else◌, All, arith, eq_iff, Bool-cases, inl, inr,
}
use agent_ship.Text.{join}
use agent_ship.A2a.Server.{
  Event, event_text, working, completed, failed, StatusUpdate, status_update, StreamEnd, finished,
  broken, cancelled, working_frame, stream_rpc,
}

abbrev pub text_of : StatusUpdate → String
text_of frame = elim frame.message [ none ↦ "" | some text ↦ text ]

abbrev IsWorking : String → String → StatusUpdate → Type 0
IsWorking task_id context_id frame =
    (frame.task_id ≡ task_id)
    × (frame.context_id ≡ context_id)
    × (frame.state ≡ working)
    × (frame.final ≡ false)
    × ((text_of frame == "") ≡ false)

-- The last frame that a stream's end calls for.
abbrev pub verdict : String → String → StreamEnd → List StatusUpdate
verdict task_id context_id finished =
    record {
      task_id = task_id;
      context_id = context_id;
      state = completed;
      message = none;
      final = true;
    }
    ∷ []
verdict task_id context_id cancelled = []
verdict task_id context_id (broken text) =
    record {
      task_id = task_id;
      context_id = context_id;
      state = failed;
      message = if text == "" then none else some text;
      final = true;
    }
    ∷ []

-- The frames of a turn: those at work, none of them empty, with the text of the events.
pub record Frames (task_id context_id : String) (events : List Event) (ending : StreamEnd)
    : Type 0 where
  pub at_work : List StatusUpdate
  pub frames :
      stream_rpc task_id context_id events ending ≡ at_work ++ verdict task_id context_id ending
  pub all_working : All (IsWorking task_id context_id) at_work
  pub said : join (map text_of at_work) ≡ join (map event_text events)

empty : (s : String) → (s == "") ≡ true → s ≡ ""
empty s h = ground (arith, eq_iff s "", h)

said_by :
    (task_id context_id text : String)
    → (text == "") ≡ false
    → text_of (status_update task_id context_id working text false) ≡ text
unfolding status_update
said_by task_id context_id text h = rw h refl

framed :
    (task_id context_id text : String)
    → (text == "") ≡ false
    → working_frame task_id context_id text
      ≡ status_update task_id context_id working text false ∷ []
framed task_id context_id text h = rw h refl

-- The frames of a stream are frames at work, which carry the text of the agent's events, in order, and
-- then one final frame, which says whether the stream completed or failed, unless it was cancelled.
pub stream_rpc_ends :
    (task_id context_id : String) (events : List Event) (ending : StreamEnd)
    → Frames task_id context_id events ending
unfolding stream_rpc status_update
stream_rpc_ends task_id context_id [] finished = record {
  at_work = [];
  frames = refl;
  all_working = tt;
  said = refl;
}
stream_rpc_ends task_id context_id [] cancelled = record {
  at_work = [];
  frames = refl;
  all_working = tt;
  said = refl;
}
stream_rpc_ends task_id context_id [] (broken text) = record {
  at_work = [];
  frames = refl;
  all_working = tt;
  said = refl;
}
stream_rpc_ends task_id context_id (event ∷ events) ending =
    let rest = stream_rpc_ends task_id context_id events ending in
    elim (Bool-cases (event_text event == "")) [
      | inl e ↦ record {
        at_work = rest.at_work;
        frames = rw e rest.frames;
        all_working = rest.all_working;
        said =
            rest.said
            ∙ sym (
                ap (λ t. t <> join (map event_text events)) (empty (event_text event) e)
                ∙ nil-append _);
      }
      | inr e ↦ record {
        at_work = status_update task_id context_id working (event_text event) false ∷ rest.at_work;
        frames =
            ap (λ w. w ++ stream_rpc task_id context_id events ending)
              (framed task_id context_id (event_text event) e)
            ∙ ap (λ fs. status_update task_id context_id working (event_text event) false ∷ fs)
                rest.frames;
        all_working = (
          (
            refl,
            refl,
            refl,
            refl,
            ap (λ t. t == "") (said_by task_id context_id (event_text event) e) ∙ e,
          ),
          rest.all_working,
        );
        said =
            ap (λ t. t <> join (map text_of rest.at_work))
              (said_by task_id context_id (event_text event) e)
            ∙ ap (λ t. event_text event <> t) rest.said;
      }
    ]

-- ===== src/Examples/Speech.antt =====
-- A spoken turn that is interrupted, and the spans of a turn.
use agent_ship.Prelude.{String, ◌≡◌, refl, true, false, none, some, [], ◌∷◌, ◌==◌, if◌then◌else◌}
use Prim.Native.String.{◌++◌ as ◌<>◌}
use agent_ship.Voice.{VoiceTurn, reset, transcript, cancelled_marker}
use agent_ship.Text.{join}
use agent_ship.Voice.Transcript.{interrupted_transcript, all_blank, ends_in_blank}
use agent_ship.Observability.Tree.{agent, llm, tool}
use agent_ship.Observability.Recorder.{ended, raised, frozen_roots}
use agent_ship.Observability.Program.{
  Block, block, stop, sets, annotates, within, forest_of, record_all, no_recording,
}
use agent_ship.Observability.Refines.{record_all-forest_of}

abbrev cut_short : VoiceTurn
cut_short = record reset {
  heard = some "balance?";
  generated = "Your balance " ∷ "is low. " ∷ [];
  spoken = "Your balance " ∷ [];
}

interrupted_transcript_example :
    (heard : String) × (blanks : String) × (unheard : String) × (join cut_short.spoken
      ≡ heard <> blanks)
    × (all_blank blanks ≡ true)
    × (ends_in_blank heard ≡ false)
    × (transcript false cut_short ≡ heard <> unheard)
    × (transcript true cut_short
        ≡ (if heard == "" then cancelled_marker else heard <> (" " <> cancelled_marker)))
interrupted_transcript_example = interrupted_transcript cut_short ("is low. " ∷ [], refl)

abbrev as_text : String → String
as_text s = s

abbrev answered : Block String
answered =
    block "agent support" agent []
      (sets (("session", "s1") ∷ []) (
        within (block "chat gpt" llm [] (annotates (("tokens", "9") ∷ []) stop) ended) (
          within
            (block "tool.lookup" tool [] stop
              (raised (record { type_name = "ValueError"; message = "no row" })))
            (annotates (("tokens", "3") ∷ []) stop))))
      ended

record_all-forest_of_example :
    (frozen_roots (record_all as_text "t1" (answered ∷ answered ∷ []) no_recording)
      ≡ some (forest_of as_text (answered ∷ answered ∷ [])))
    × ((record_all as_text "t1" (answered ∷ answered ∷ []) no_recording).current ≡ none)
record_all-forest_of_example = record_all-forest_of as_text "t1" (answered ∷ answered ∷ [])

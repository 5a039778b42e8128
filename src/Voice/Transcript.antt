-- ===== src/Voice/Transcript.antt =====
-- What a spoken turn says of itself.
use Prim.Native.String.{◌++◌ as ◌<>◌}
use Prim.Native.Char.{code}
use text.Mathlib.TextLemmas.{append_assoc, cons-append, nil-append}
use mathlib.Core.List.{append-nil, append_assoc as list-append_assoc}
use agent_ship.Prelude.{
  ℕ, String, ◌≡◌, refl, sym, ap, ◌∙◌, inl, inr, true, false, Option, none, some, List, [], ◌∷◌,
  ◌++◌, ◌&&◌, ◌||◌, not, ◌==◌, if◌then◌else◌, Bool-cases, Bool, eq_iff, arith,
}
use agent_ship.Text.{rstrip, is_space, join, join-append}
use agent_ship.Voice.{
  StreamEvent, VoiceTurn, text_of, is_content, take_event, take_events, say, cancelled_marker,
  transcript, no_times, reset,
}

abbrev chunk_of : Option String → StreamEvent → List String
chunk_of speak_field event =
    let chunk = text_of event.payload speak_field in
    if not (is_content event) || chunk == "" then [] else chunk ∷ []

-- The texts of a stream that a listener is to hear.
abbrev chunks_of : Option String → List (StreamEvent × ℕ) → List String
chunks_of speak_field [] = []
chunks_of speak_field ((event, elapsed) ∷ events) =
    chunk_of speak_field event ++ chunks_of speak_field events

-- What the turn has become after these chunks.
record Took (turn : VoiceTurn) (chunks : List String) (r : List String × VoiceTurn) : Type 0 where
  pub yielded : r.0 ≡ chunks
  pub generated : r.1.generated ≡ turn.generated ++ chunks
  pub spoken : r.1.spoken ≡ turn.spoken
  pub heard : r.1.heard ≡ turn.heard

abbrev started : String → Option ℕ → VoiceTurn
started heard asr_ms = record reset {
  heard = some heard;
  trace = record no_times { asr_ms = asr_ms };
}

take_event-Took :
    (speak_field : Option String) (turn : VoiceTurn) (event : StreamEvent) (elapsed : ℕ)
    → Took turn (chunk_of speak_field event) (take_event speak_field turn event elapsed)
unfolding take_event
take_event-Took speak_field turn event elapsed =
    elim (Bool-cases (not (is_content event) || text_of event.payload speak_field == "")) [
      | inl e ↦ rw e (record {
        yielded = refl;
        generated = sym (append-nil turn.generated);
        spoken = refl;
        heard = refl;
      })
      | inr e ↦ rw e (record { yielded = refl; generated = refl; spoken = refl; heard = refl })
    ]

take_events-Took :
    (speak_field : Option String) (turn : VoiceTurn) (events : List (StreamEvent × ℕ))
    → Took turn (chunks_of speak_field events) (take_events speak_field turn events)
unfolding take_events
take_events-Took speak_field turn [] = record {
  yielded = refl;
  generated = sym (append-nil turn.generated);
  spoken = refl;
  heard = refl;
}
take_events-Took speak_field turn ((event, elapsed) ∷ events) =
    let first = take_event-Took speak_field turn event elapsed in
    let rest = take_events-Took speak_field (take_event speak_field turn event elapsed).1 events in
    record {
      yielded = rw (first.yielded, rest.yielded) refl;
      generated =
          rest.generated
          ∙ ap (λ (g : List String). g ++ chunks_of speak_field events) first.generated
          ∙ list-append_assoc turn.generated (chunk_of speak_field event)
              (chunks_of speak_field events);
      spoken = rest.spoken ∙ first.spoken;
      heard = rest.heard ∙ first.heard;
    }

-- Whatever the turn before has left, what a reply says is what its stream's content events carry, in
-- order, as far as it is listened to: that is yielded, kept as generated and, if not interrupted, the
-- transcript; nothing counts as spoken, and the text that was heard is kept.
say_generates :
    (speak_field : Option String) (heard : String) (asr_ms : Option ℕ)
    (events : List (StreamEvent × ℕ)) (ended : Option ℕ) (turn : VoiceTurn)
    → let r = say speak_field heard asr_ms events ended turn in
      (r.0 ≡ chunks_of speak_field events)
      × (r.1.heard ≡ some heard)
      × (r.1.spoken ≡ [])
      × (transcript false r.1 ≡ join (chunks_of speak_field events))
unfolding say transcript
say_generates speak_field heard asr_ms events none turn =
    let took = take_events-Took speak_field (started heard asr_ms) events in
    (took.yielded, took.heard, took.spoken, ap join took.generated)
say_generates speak_field heard asr_ms events (some t) turn =
    let took = take_events-Took speak_field (started heard asr_ms) events in
    (took.yielded, took.heard, took.spoken, ap join took.generated)

-- Every character of a text is a blank; and the last one of a text is.
abbrev pub all_blank : String → Bool
all_blank String.[] = true
all_blank (String.◌∷◌ c s) = is_space (code c) && all_blank s

abbrev pub ends_in_blank : String → Bool
ends_in_blank String.[] = false
ends_in_blank (String.◌∷◌ c s) =
    let rest = ends_in_blank s in if s == "" then is_space (code c) else rest

rstrip-blanks : (s : String) → (t : String) × (s ≡ rstrip s <> t) × (all_blank t ≡ true)
unfolding rstrip
rstrip-blanks String.[] = ("", sym (nil-append ""), refl)
rstrip-blanks (String.◌∷◌ c s) =
    let (t, e, b) = rstrip-blanks s in
    elim (Bool-cases (is_space (code c) && rstrip s == "")) [
      | inl blank ↦
          let none_left : rstrip s ≡ "" = ground (arith, eq_iff (rstrip s) "") in
          let same : s ≡ t = e ∙ ap (λ r. r <> t) none_left ∙ nil-append t in
          (
            String.◌∷◌ c s,
            rw blank (sym (nil-append (String.◌∷◌ c s))),
            rw same (ground (arith, blank, b)),
          )
      | inr kept ↦ (t, rw kept (ap (String.◌∷◌ c) e ∙ sym (cons-append c (rstrip s) t)), b)
    ]

ends_in_blank-rstrip : (s : String) → ends_in_blank (rstrip s) ≡ false
unfolding rstrip
ends_in_blank-rstrip String.[] = refl
ends_in_blank-rstrip (String.◌∷◌ c s) = elim (Bool-cases (is_space (code c) && rstrip s == "")) [
  | inl blank ↦ rw blank refl
  | inr kept ↦ rw kept (ground (arith, kept, ends_in_blank-rstrip s))
]

-- What was spoken is the beginning of what was generated.
abbrev IsPrefix : List String → List String → Type 0
IsPrefix xs ys = (rest : List String) × (xs ++ rest ≡ ys)

-- An interrupted turn never claims what was not heard: if the chunks that were spoken are the first of
-- those that were generated, its transcript is what was spoken, less the blanks at its end, with the
-- marker behind it, or the marker alone if nothing but blanks was spoken; and what it claims to have been
-- heard is the beginning of what the transcript would have been without the interruption.
pub interrupted_transcript :
    (turn : VoiceTurn)
    → IsPrefix turn.spoken turn.generated
    → (heard : String) × (blanks : String) × (unheard : String) × (join turn.spoken
        ≡ heard <> blanks)
      × (all_blank blanks ≡ true)
      × (ends_in_blank heard ≡ false)
      × (transcript false turn ≡ heard <> unheard)
      × (transcript true turn
          ≡ (if heard == "" then cancelled_marker else heard <> (" " <> cancelled_marker)))
unfolding transcript
interrupted_transcript turn (rest, whole) =
    let (blanks, e, b) = rstrip-blanks (join turn.spoken) in
    (
      rstrip (join turn.spoken),
      blanks,
      blanks <> join rest,
      e,
      b,
      ends_in_blank-rstrip (join turn.spoken),
      ap join (sym whole)
          ∙ join-append turn.spoken rest
          ∙ ap (λ t. t <> join rest) e
          ∙ append_assoc (rstrip (join turn.spoken)) blanks (join rest),
      refl,
    )

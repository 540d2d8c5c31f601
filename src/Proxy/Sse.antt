-- ===== src/Proxy/Sse.antt =====
-- src/proxy/sanitize.rs: SseSanitizer, and sse_stream of src/proxy/mod.rs, which feeds it.
use anser.Prelude.{
  ℕ, suc, ◌≡◌, Bool, true, false, ◌&&◌, not, String, Option, none, some, List, [], ◌∷◌, ◌++◌,
  if◌then◌else◌, length, ◌==◌,
}
use anser.Prelude.Text.{text_key, Text, codes, trim, strip_prefix, starts_with, ends_with, is_some}
use anser.Prelude.Lines.{Flow, go, stop, drain}
use anser.Json.{Value, array, item, end_array, Parsed, parsed, invalid, get, get_in, str_in}
use anser.Engine.Stream.{or_else}
use anser.Proxy.Repetition.{
  RepetitionDetector, new_detector, Repetition, character, pattern_of, Fed, quiet, repeats, panics,
  feed as feed_detector,
}
pub mod Behind
pub mod Chunks
pub mod Streaming

-- What the sanitizer takes from libraries and the clock: the incremental decoder, the JSON parser,
-- the printed form of a value and of a text, and the printed chunk that carries a marker.
pub record Env : Type 1 where
  pub Decoder : Type 0
  pub new_decoder : Decoder
  pub decode : Decoder → List ℕ → Decoder × Text
  pub flush : Decoder → Text
  pub from_str : Text → Parsed
  pub print : Value → Text
  pub print_text : Text → Text
  pub print_chunk : (marker : Text) → Text

abbrev pub guard_marker_prefix : Text
guard_marker_prefix = codes "[StreamProxy Guard: Runaway repetition loop ("

abbrev pub kind : Repetition → Text
kind (character ch count) = codes "character"
kind (pattern_of unit count) = codes "pattern"

abbrev pub unit_of : Repetition → Text
unit_of (character ch count) = ch ∷ []
unit_of (pattern_of unit count) = unit

-- What a line of the stream comes to: it passes, it ends the stream with an output of its own, or
-- the detector panics.
pub data Verdict : Type 0 where
  pass : RepetitionDetector → Verdict
  special : Text → Verdict
  crash : Verdict

-- `pointer("/choices/0/delta")`.
unfoldable pub first_item : Option Value → Option Value
first_item (some (array (item v rest))) = some v
first_item _ = none

unfoldable pub delta_of : Value → Option Value
unfolding first_item get get_in
delta_of frame = get_in "delta" (first_item (get "choices" frame))

-- The text of a delta, from the first of three members that is there.
unfoldable pub token_text : Value → Text
unfolding get str_in
token_text delta =
    elim (str_in (
      or_else (get "content" delta)
        (or_else (get "reasoning" delta) (get "reasoning_content" delta)))) [
          | none ↦ []
          | some s ↦ codes s
        ]

module _ (e : Env) where
  unfoldable pub marker : Repetition → Text
  marker rep =
      codes "\n\n"
      ++ guard_marker_prefix
      ++ kind rep
      ++ codes ": "
      ++ e.print_text (unit_of rep)
      ++ codes ") detected and safely truncated]\n\n"

  unfoldable pub breaker : Repetition → Text
  unfolding marker
  breaker rep = codes "data: " ++ e.print_chunk (marker rep) ++ codes "\n\ndata: [DONE]\n\n"

  unfoldable pub judge_token : Fed → Verdict
  unfolding breaker
  judge_token (quiet d) = pass d
  judge_token (repeats rep d) = special (breaker rep)
  judge_token panics = crash

  unfoldable pub process_delta : Option Value → RepetitionDetector → Verdict
  unfolding token_text judge_token feed_detector
  process_delta none d = pass d
  process_delta (some delta) d = judge_token (feed_detector (token_text delta) d)

  unfoldable pub process_frame : Value → RepetitionDetector → Verdict
  unfolding process_delta delta_of get
  process_frame frame d =
      if is_some (get "error" frame) && not (is_some (get "choices" frame))
      then special (codes "event: error\ndata: " ++ e.print frame ++ codes "\n\n")
      else process_delta (delta_of frame) d

  unfoldable pub process_payload : Text → RepetitionDetector → Verdict
  unfolding process_frame starts_with
  process_payload payload d =
      if starts_with payload (codes "{")
      then elim (e.from_str payload) [
        | parsed frame ↦ process_frame frame d
        | invalid detail ↦ pass d
      ]
      else pass d

  unfoldable pub process_line : Text → RepetitionDetector → Verdict
  unfolding process_payload trim strip_prefix text_key
  process_line line d =
      if trim line == codes "data: [DONE]"
      then special (codes "data: [DONE]\n\n")
      else elim (strip_prefix (trim line) (codes "data: ")) [
        | none ↦ pass d
        | some stripped ↦ process_payload (trim stripped) d
      ]

  -- The state; `done` is also set where the code has panicked and the stream is gone.
  pub record SseSanitizer : Type 0 where
    pub decoder : e.Decoder
    pub detector : RepetitionDetector
    pub line_buf : Text
    pub done : Bool

  abbrev pub new_sanitizer : SseSanitizer
  new_sanitizer = record {
    decoder = e.new_decoder;
    detector = new_detector;
    line_buf = [];
    done = false;
  }

  pub data Output : Type 0 where
    wrote : (out : Text) (after : SseSanitizer) → Output
    crashed : Output

  -- How the loop of `feed`, or the response, ends: whole, or in a panic behind what was written.
  pub data Early : Type 0 where
    ended : Text → Early
    broke : Text → Early

  -- One line of the loop, behind what it wrote before.
  unfoldable pub write_line : Text → Text → Verdict → Flow (RepetitionDetector × Text) Early
  write_line line out (pass next) = go (next, out ++ (line ++ 10 ∷ []))
  write_line line out (special text) = stop (ended (out ++ text))
  write_line line out crash = stop (broke out)

  unfoldable pub sanitize_line :
      Text → RepetitionDetector × Text → Flow (RepetitionDetector × Text) Early
  unfolding process_line write_line
  sanitize_line line (d, out) = write_line line out (process_line line d)

  unfoldable pub written_by :
      SseSanitizer → Flow (Text × (RepetitionDetector × Text)) Early → Output
  written_by s (go (rest, (d, out))) = wrote out (record s { detector = d; line_buf = rest })
  written_by s (stop (ended out)) = wrote out (record s { done = true })
  written_by s (stop (broke out)) = crashed

  -- A stream that has ended keeps nothing that is read again.
  unfoldable pub sanitize_text : Text → SseSanitizer → Output
  unfolding drain sanitize_line written_by
  sanitize_text text s = written_by s (
      drain sanitize_line (suc (length (s.line_buf ++ text))) (s.line_buf ++ text) (s.detector, []))

  unfoldable pub feed_decoded : e.Decoder × Text → SseSanitizer → Output
  unfolding sanitize_text
  feed_decoded (decoder, []) s = wrote [] (record s { decoder = decoder })
  feed_decoded (decoder, c ∷ rest) s = sanitize_text (c ∷ rest) (record s { decoder = decoder })

  unfoldable pub feed : List ℕ → SseSanitizer → Output
  unfolding feed_decoded
  feed chunk s = if s.done then wrote [] s else feed_decoded (e.decode s.decoder chunk) s

  -- The line that no newline ends.
  unfoldable pub finish_line : Text → RepetitionDetector → Early
  unfolding process_line ends_with
  finish_line line d = elim line [
    | [] ↦ ended []
    | c ∷ rest ↦ elim (process_line (c ∷ rest) d) [
      | pass next ↦ ended (if ends_with (c ∷ rest) (10 ∷ []) then c ∷ rest else c ∷ rest ++ 10 ∷ [])
      | special text ↦ ended text
      | crash ↦ broke []
    ]
  ]

  unfoldable pub finish : SseSanitizer → Early
  unfolding finish_line
  finish s = if s.done then ended [] else finish_line (s.line_buf ++ e.flush s.decoder) s.detector

  abbrev pub add_to : Text → Early → Early
  add_to written (ended out) = ended (written ++ out)
  add_to written (broke out) = broke (written ++ out)

  -- How the response of the upstream ends, behind its chunks.
  pub data End : Type 0 where
    closed upstream_failed : End

  abbrev pub error_event : Text
  error_event =
      codes
        "event: error\ndata: {\"error\":{\"message\":\"upstream error\",\"type\":\"upstream_error\"}}\n\n"

  -- What the client gets of a response that arrives in chunks. A panic loses the output of the call it
  -- happens in, and what was written before it is with the client; an error of the upstream is told by
  -- an event in place of the rest.
  unfoldable pub sse_stream : (written : Text) → List (List ℕ) → End → SseSanitizer → Early
  unfolding feed finish
  sse_stream written [] closed s = add_to written (finish s)
  sse_stream written [] upstream_failed s = ended (written ++ error_event)
  sse_stream written (chunk ∷ chunks) end s = elim (feed chunk s) [
    | wrote out after ↦ sse_stream (written ++ out) chunks end after
    | crashed ↦ broke written
  ]

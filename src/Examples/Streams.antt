-- ===== src/Examples/Streams.antt =====
-- Runs of the readers of src/engine/provider.rs.
use anser.Prelude.{◌<>◌, ℕ, ◌≡◌, refl, String, List, [], ◌∷◌, map, if◌then◌else◌, ◌==◌}
use anser.Prelude.Text.{text_key, Text, codes, strip_prefix, trim}
use anser.Prelude.Lines.Cuts.{concat}
use anser.Json.{
  Members, Value, Parsed, parsed, invalid, string, number, array, object, end_array, item,
  end_object, member,
}
use anser.Engine.Stream.{
  Answer, answered, failed, Env, empty_reply, bytes, consume_stream, add_frame,
}
use anser.Prelude.Lines.Whole.{whole_lines}
use anser.Engine.Stream.Lines.{read_lines, consume_stream-read_lines}
use anser.Engine.Stream.Slots.{
  Ascending, arguments_at, fragments, frame_calls, arguments_at-add_frame,
}

abbrev choice_of : Members → Value
choice_of members = object (member "choices" (array (item (object members) end_array)) end_object)

abbrev call_part : String → Value
call_part arguments = object (
    member "index" (number 0)
      (member "function" (object (member "arguments" (string arguments) end_object)) end_object))

-- A delta with a word and a fragment of the call 0.
abbrev word : Value
word = choice_of (
    member "delta"
      (object (
        member "content" (string "hi")
          (member "tool_calls" (array (item (call_part "{x") end_array)) end_object)))
      end_object)

abbrev whole_message : Value
whole_message = object (member "content" (string "hi") end_object)

abbrev whole_choice : Value
whole_choice =
    object (member "finish_reason" (string "stop") (member "message" whole_message end_object))

abbrev whole_body : Value
whole_body = object (member "choices" (array (item whole_choice end_array)) end_object)

abbrev frames : Text → Parsed
frames t = if t == codes "{word}" then parsed word else invalid "expected value"

abbrev ascii : Env
ascii = record { from_utf8_lossy = λ t. t; from_str = frames; first = 3; total = 9 }

abbrev two_chunks : List Text
two_chunks = codes "data: {wo" ∷ codes "rd}\ndata: [DONE]\n" ∷ []

content_of : Answer → Text
content_of (answered completion metrics) = completion.content
content_of (failed error) = codes "failed"

stream_runs : content_of (consume_stream ascii (map bytes two_chunks)) ≡ codes "hi"
unfolding content_of consume_stream strip_prefix trim text_key
stream_runs = refl

-- The end of the stream drops a line that no newline ends.
stream_drops : content_of (consume_stream ascii (bytes (codes "data: {word}") ∷ [])) ≡ []
unfolding content_of consume_stream strip_prefix trim text_key
stream_drops = refl

consume_stream-read_lines_example :
    consume_stream ascii (map bytes two_chunks)
    ≡ read_lines ascii (whole_lines [] (concat two_chunks)) empty_reply
consume_stream-read_lines_example = consume_stream-read_lines ascii two_chunks

arguments_at-add_frame_example :
    Ascending (add_frame ascii empty_reply word).tool_calls
    × ((k : ℕ)
        → arguments_at k (add_frame ascii empty_reply word).tool_calls
          ≡ arguments_at k [] <> fragments k (frame_calls word))
arguments_at-add_frame_example = arguments_at-add_frame ascii empty_reply word tt

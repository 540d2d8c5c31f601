-- ===== src/Examples/Proxying.antt =====
-- The theorems on src/proxy/sanitize.rs at small inputs.
use anser.Prelude.{ℕ, ◌≡◌, refl, true, false, List, [], ◌∷◌, ◌++◌, arith}
use anser.Prelude.Text.{text_key, Text, codes, trim, strip_prefix}
use anser.Prelude.Lines.Cuts.{concat}
use anser.Prelude.Lines.Whole.{whole_lines, last_line, fold_lines}
use anser.Json.{Value, invalid, string, array, object, item, end_array, member, end_object}
use anser.Engine.Stream.{utf8_len, utf8_width}
use anser.Proxy.Repetition.{
  RepetitionDetector, new_detector, panics, feed_chars, feed, pattern_repeat_count,
}
use anser.Proxy.Repetition.Runs.{Bounded, Passes, Passes-Bounded}
use anser.Proxy.Repetition.Windows.{copies}
use anser.Proxy.Repetition.Patterns.{EndsWith, feed-pattern}
use anser.Proxy.Repetition.Panics.{feed-panics}
use anser.Proxy.Sse.{upstream_failed, closed, Env, new_sanitizer, ended, sanitize_line, sse_stream}
use anser.Proxy.Sse.Chunks.{Agrees, Streams}
use anser.Proxy.Sse.Streaming.{sanitized, sse_stream-sanitized, sse_stream_transparent}
use anser.Proxy.Images.{sanitize_request_body}
use anser.Proxy.Images.Request.{request_has_image, sanitize_request_body-clean}

-- A decoder that passes every byte on, and no line that is JSON.
abbrev plain : Env
plain = record {
  Decoder = Unit {0};
  new_decoder = tt;
  decode = λ d bytes. (d, bytes);
  flush = λ d. [];
  from_str = λ t. invalid "expected value";
  print = λ v. [];
  print_text = λ t. t;
  print_chunk = λ t. t;
}

plain-Streams : Streams plain
plain-Streams = record { nothing = λ d. refl; more = λ d xs ys. refl }

abbrev chunks : List (List ℕ)
chunks = codes "event: p" ∷ codes "ing\n\n" ∷ []

sse_stream-sanitized_example :
    Agrees plain
      (sse_stream plain [] chunks upstream_failed (new_sanitizer plain))
      (sanitized plain upstream_failed (plain.decode plain.new_decoder (concat chunks)))
sse_stream-sanitized_example = sse_stream-sanitized plain chunks upstream_failed plain-Streams

sse_stream_transparent_example :
    sse_stream plain [] chunks closed (new_sanitizer plain)
    ≡ ended (plain.decode plain.new_decoder (concat chunks)).1
unfolding sanitize_line fold_lines whole_lines last_line concat trim strip_prefix text_key
sse_stream_transparent_example =
    sse_stream_transparent plain chunks new_detector (codes "event: ping\n\n") plain-Streams refl
      refl refl

-- Two pieces of a text that the detector takes.
abbrev spoken : List Text
spoken = codes "aa" ∷ codes "ab" ∷ []

abbrev after_spoken : RepetitionDetector
after_spoken = record { last_char = 98; char_repeat_count = 1; rolling = codes "aaab" }

Passes-Bounded_example : Bounded (concat spoken)
unfolding Passes feed concat
Passes-Bounded_example = Passes-Bounded spoken new_detector after_spoken (
  record { last_char = 97; char_repeat_count = 2; rolling = codes "aa" },
  refl,
  (after_spoken, refl, refl),
)

abbrev loop_text : Text
loop_text = copies 40 (codes "abcd")

abbrev after_loop : RepetitionDetector
after_loop = record { last_char = 100; char_repeat_count = 1; rolling = loop_text }

feed-pattern_example : (40 ≡ pattern_repeat_count) × EndsWith after_loop.rolling (codes "abcd")
unfolding feed text_key
feed-pattern_example = feed-pattern loop_text new_detector after_loop (codes "abcd") 40 refl

-- Fifty-four characters of three bytes each.
abbrev wide_start : Text
wide_start = copies 26 (0x4e00 ∷ 0x4e01 ∷ [])

abbrev wide_text : Text
wide_text = wide_start ++ 0x4e00 ∷ 0x4e01 ∷ []

feed-panics_example : feed wide_text new_detector ≡ panics
unfolding feed_chars utf8_len utf8_width
feed-panics_example =
    feed-panics wide_text wide_start 0x4e00 0x4e01 new_detector (0x4e01, 1) refl (λ h. cc) refl refl
      refl (omega arith) (omega arith)

abbrev with_image : Value
with_image = object (
    member "messages"
      (array (
        item
          (object (
            member "content"
              (array (item (object (member "image_url" (string "x") end_object)) end_array))
              end_object))
          end_array))
      end_object)

with_image_found : request_has_image with_image ≡ true
unfolding request_has_image
with_image_found = refl

sanitize_request_body-clean_example :
    (request_has_image (sanitize_request_body with_image).0 ≡ false)
    × ((sanitize_request_body with_image).1 ≡ request_has_image with_image)
sanitize_request_body-clean_example = sanitize_request_body-clean with_image

-- ===== src/Engine/Stream/Lines.antt =====
-- src/engine/provider.rs: consume_stream reads whole lines, however the bytes are cut into chunks.
use anser.Prelude.{◌≡◌, refl, ◌∙◌, ap, List, [], ◌∷◌, map}
use anser.Prelude.Text.{Text}
use anser.Prelude.Lines.{Flow, go, stop, and_then, feed_line, feed_all, split_line}
use anser.Prelude.Lines.Cuts.{concat, feed_all-scan}
use anser.Prelude.Lines.Whole.{whole_lines, last_line, fold_lines, scan-fold_lines}
use anser.Engine.Stream.{
  Reply, empty_reply, Answer, Env, bytes, read_line, read_chunks, consume_stream, assemble,
}

module _ (e : Env) where
  -- What the lines answer, or the completion of what they say.
  unfoldable pub read_lines : List Text → Reply → Answer
  unfolding fold_lines read_line assemble
  read_lines lines r = elim (fold_lines (read_line e) lines r) [
    | go last ↦ assemble e.total last
    | stop answer ↦ answer
  ]

  -- What the loop makes of its state at the end of the stream.
  abbrev ending : Flow (Text × Reply) Answer → Answer
  ending (go (buf, r)) = assemble e.total r
  ending (stop answer) = answer

  feed_onward :
      (chunks : List Text)
      → ((at : Text × Reply)
          → read_chunks e (map bytes chunks) at ≡ ending (feed_all (read_line e) chunks at))
      → (m : Flow (Text × Reply) Answer)
      → elim m [ go next ↦ read_chunks e (map bytes chunks) next | stop answer ↦ answer ]
        ≡ ending (and_then m (feed_all (read_line e) chunks))
  feed_onward chunks same (go next) = same next
  feed_onward chunks same (stop answer) = refl

  read_chunks-feed_all :
      (chunks : List Text) (at : Text × Reply)
      → read_chunks e (map bytes chunks) at ≡ ending (feed_all (read_line e) chunks at)
  unfolding read_chunks feed_all
  read_chunks-feed_all [] (buf, r) = refl
  read_chunks-feed_all (chunk ∷ chunks) at =
      feed_onward chunks (read_chunks-feed_all chunks) (feed_line (read_line e) chunk at)

  ending-fold_lines :
      (rest : Text) (m : Flow Reply Answer)
      → ending (and_then m (λ r. go (rest, r)))
        ≡ elim m [ go last ↦ assemble e.total last | stop answer ↦ answer ]
  ending-fold_lines rest (go last) = refl
  ending-fold_lines rest (stop answer) = refl

  -- However a response is cut into chunks, its completion is the one of its whole lines, read in
  -- order until one of them answers; what stands after the last newline is not read.
  pub consume_stream-read_lines :
      (chunks : List Text)
      → consume_stream e (map bytes chunks)
        ≡ read_lines (whole_lines [] (concat chunks)) empty_reply
  unfolding consume_stream read_lines
  consume_stream-read_lines chunks =
      read_chunks-feed_all chunks ([], empty_reply)
      ∙ ap ending (feed_all-scan (read_line e) [] chunks empty_reply (unfold split_line in refl))
      ∙ ap ending (scan-fold_lines (read_line e) [] (concat chunks) empty_reply)
      ∙ ending-fold_lines (last_line [] (concat chunks))
          (fold_lines (read_line e) (whole_lines [] (concat chunks)) empty_reply)

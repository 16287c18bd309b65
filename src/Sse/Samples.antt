-- ===== src/Sse/Samples.antt =====
-- Runs of `SSEFramer` of internal/adapter/shared/shared.go, and the theorems at a concrete stream.
use opencode_go_cliproxyapi.Prelude.{List, [], drop, false, refl, take, true, ◌++◌, ◌∷◌, ◌≡◌}
use opencode_go_cliproxyapi.Prelude.Text.{
  Text, codes, cut_byte, has_prefix, trim_prefix, trim_space, trim_suffix,
}
use opencode_go_cliproxyapi.Sse.{
  add_data, classify_line, drain_within, end_frame, feed, new_framer, next, next_within, push,
  take_line,
}
use opencode_go_cliproxyapi.Sse.Chunks.{feed_all, feed_all-joined, joined}
use opencode_go_cliproxyapi.Sse.Raw.{bytes_of, feed_all-bytes_of}

abbrev lf : Text
lf = 10 ∷ []

abbrev sample_stream : Text
sample_stream =
    codes ": ping"
    ++ (lf
        ++ (lf
            ++ (codes "event: e"
                ++ (lf
                    ++ (codes "data: a"
                        ++ (13 ∷ lf ++ (codes "data:b" ++ (lf ++ (lf ++ codes "dat")))))))))

abbrev sample_chunks : List Text
sample_chunks = take 7 sample_stream ∷ take 9 (drop 7 sample_stream) ∷ drop 16 sample_stream ∷ []

one_frame :
    (feed sample_stream (new_framer false)).1
    ≡ record { event_type = codes "e"; data_text = codes "a" ++ (10 ∷ codes "b"); raw = [] } ∷ []
unfolding feed push new_framer drain_within next next_within take_line classify_line end_frame
    add_data cut_byte trim_suffix trim_prefix has_prefix trim_space
one_frame = refl

-- An empty payload in front leaves no newline behind.
empty_payload :
    (feed (codes "data:" ++ (lf ++ (codes "data:a" ++ (lf ++ lf)))) (new_framer false)).1
    ≡ record { event_type = []; data_text = codes "a"; raw = [] } ∷ []
unfolding feed push new_framer drain_within next next_within take_line classify_line end_frame
    add_data cut_byte trim_suffix trim_prefix has_prefix trim_space
empty_payload = refl

feed_all-joined_example :
    feed_all (codes "data: " ∷ codes "x" ∷ lf ∷ lf ∷ []) (new_framer false)
    ≡ feed (joined (codes "data: " ∷ codes "x" ∷ lf ∷ lf ∷ [])) (new_framer false)
feed_all-joined_example = feed_all-joined false (codes "data: " ∷ codes "x" ∷ lf ∷ lf ∷ [])

feed_all-bytes_of_example :
    bytes_of (feed_all (codes "data: " ∷ codes "x" ∷ lf ∷ codes "id" ∷ []) (new_framer true))
    ≡ joined (codes "data: " ∷ codes "x" ∷ lf ∷ codes "id" ∷ [])
feed_all-bytes_of_example = feed_all-bytes_of (codes "data: " ∷ codes "x" ∷ lf ∷ codes "id" ∷ [])

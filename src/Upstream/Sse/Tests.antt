-- ===== src/Upstream/Sse/Tests.antt =====
-- Two events and a comment, decoded.
use sentoris_proxy.Prelude.{ℕ, ◌≡◌, refl, none, [], ◌∷◌, ◌++◌, map, ok, err, codes}
use sentoris_proxy.Upstream.Sse.{Scanner, end_of_file, new_event, read_line, decode_from, decode}
use sentoris_proxy.Upstream.Sse.Laws.{
  event_line, data_line, comment_line, unlines, decode-event, decode_from-comment_line,
}

abbrev stream : Scanner ℕ
stream = record {
  lines = codes ": ping" ∷ codes "data:1" ∷ codes "id: 4" ∷ [] ∷ codes "data: 2" ∷ [];
  final_error = none;
}

abbrev left_over : Scanner ℕ
left_over = record { lines = codes "data: 2" ∷ []; final_error = none }

first_event :
    decode stream ≡ (ok (record { type = codes "message"; payload = codes "1\n" }), left_over)
unfolding decode read_line
first_event = refl

last_event : (decode left_over).0 ≡ ok (record { type = codes "message"; payload = codes "2" })
unfolding decode read_line
last_event = refl

no_event : (decode {E = ℕ} (record { lines = []; final_error = none })).0 ≡ err end_of_file
unfolding decode
no_event = refl

decode-event_example :
    decode {E = ℕ} (record {
      lines = event_line (codes "done") ∷ (map data_line (codes "a" ∷ []) ++ ([] ∷ []));
      final_error = none;
    })
    ≡ (
      ok (record { type = codes "done"; payload = unlines (codes "a" ∷ []) }),
      record { lines = []; final_error = none },
    )
decode-event_example = decode-event (codes "done") (codes "a" ∷ []) [] none

decode_from-comment_line_example :
    decode_from {E = ℕ} ((codes "data: 2" ∷ []) ++ (comment_line (codes "x") ∷ [])) none new_event
    ≡ decode_from ((codes "data: 2" ∷ []) ++ []) none new_event
decode_from-comment_line_example =
    decode_from-comment_line (codes "data: 2" ∷ []) [] (codes "x") none new_event ((λ e. cc), tt)

-- ===== src/Upstream/Sse/Laws.antt =====
-- What the decoder reads back of a stream in the format that it is meant for.
use sentoris_proxy.Prelude.{
  ℕ, ◌≡◌, refl, sym, ap, ◌∙◌, Option, none, List, [], ◌∷◌, ◌++◌, map, ok, codes, All, ◌≢◌,
}
use mathlib.Core.List.{append-nil, append_assoc}
use sentoris_proxy.Upstream.Sse.{
  SseEvent, new_event, read_line, trim_newline, finish, decode_from, decode,
}

-- A writer's lines: `event: <type>`, then one `data: <text>` for each line of the payload.
pub event_line : List ℕ → List ℕ
event_line type = codes "event: " ++ type

pub data_line : List ℕ → List ℕ
data_line text = codes "data: " ++ text

pub comment_line : List ℕ → List ℕ
comment_line text = codes ":" ++ text

-- The lines of a payload, each with its newline.
pub unlines : List (List ℕ) → List ℕ
unlines [] = []
unlines (t ∷ ts) = t ++ (10 ∷ unlines ts)

read_line-event_line :
    (t : List ℕ) (event : SseEvent) → read_line (event_line t) event ≡ record event { type = t }
unfolding read_line event_line
read_line-event_line t event = refl

read_line-data_line :
    (t : List ℕ) (event : SseEvent)
    → read_line (data_line t) event ≡ record event { payload = event.payload ++ (t ++ (10 ∷ [])) }
unfolding read_line data_line
read_line-data_line t event = refl

read_line-comment_line : (t : List ℕ) (event : SseEvent) → read_line (comment_line t) event ≡ event
unfolding read_line comment_line
read_line-comment_line t event = refl

append-unlines :
    (xs t : List ℕ) (ts : List (List ℕ))
    → (xs ++ (t ++ (10 ∷ []))) ++ unlines ts ≡ xs ++ unlines (t ∷ ts)
unfolding unlines
append-unlines xs t ts = simp append_assoc

-- The lines of a payload, with a newline between each two.
pub join_lines : List ℕ → List (List ℕ) → List ℕ
join_lines u [] = u
join_lines u (t ∷ ts) = u ++ (10 ∷ join_lines t ts)

unlines-join_lines :
    (u : List ℕ) (ts : List (List ℕ)) → unlines (u ∷ ts) ≡ join_lines u ts ++ (10 ∷ [])
unfolding unlines join_lines
unlines-join_lines u [] = refl
unlines-join_lines u (t ∷ ts) =
    ap (λ r. u ++ (10 ∷ r)) (unlines-join_lines t ts)
    ∙ sym (append_assoc u (10 ∷ join_lines t ts) (10 ∷ []))

trim_newline-append : (xs : List ℕ) → trim_newline (xs ++ (10 ∷ [])) ≡ xs
unfolding trim_newline
trim_newline-append [] = refl
trim_newline-append (x ∷ []) = refl
trim_newline-append (x ∷ (y ∷ ys)) = ap (λ r. x ∷ r) (trim_newline-append (y ∷ ys))

module _ {E : Type 0} where
  finish-append :
      (t xs : List ℕ)
      → finish {E = E} (record { type = t; payload = xs ++ (10 ∷ []) }) none
        ≡ ok (record { type = t; payload = xs })
  unfolding finish
  finish-append t [] = unfold trim_newline in refl
  finish-append t (x ∷ xs) =
      ap (λ p. ok (record { type = t; payload = p })) (trim_newline-append (x ∷ xs))

  decode_from-event_line :
      (t : List ℕ) (ls : List (List ℕ)) (final : Option E) (event : SseEvent)
      → decode_from (event_line t ∷ ls) final event
        ≡ decode_from ls final (record event { type = t })
  unfolding decode_from event_line
  decode_from-event_line t ls final event =
      ap (λ e. decode_from ls final e) (read_line-event_line t event)

  decode_from-data_lines :
      (ts ls : List (List ℕ)) (final : Option E) (event : SseEvent)
      → decode_from (map data_line ts ++ ls) final event
        ≡ decode_from ls final (record event { payload = event.payload ++ unlines ts })
  unfolding unlines decode_from data_line
  decode_from-data_lines [] ls final event = rw (append-nil event.payload)
  decode_from-data_lines (t ∷ ts) ls final event =
      ap (λ e. decode_from (map data_line ts ++ ls) final e) (read_line-data_line t event)
      ∙ decode_from-data_lines ts ls final
          (record event { payload = event.payload ++ (t ++ (10 ∷ [])) })
      ∙ ap (λ p. decode_from ls final (record event { payload = p }))
          (append-unlines event.payload t ts)

  -- The type line and the data lines together.
  decode_from-event :
      (t : List ℕ) (ts ls : List (List ℕ)) (final : Option E)
      → decode_from (event_line t ∷ (map data_line ts ++ ls)) final new_event
        ≡ decode_from ls final (record { type = t; payload = unlines ts })
  decode_from-event t ts ls final =
      decode_from-event_line t (map data_line ts ++ ls) final new_event
      ∙ decode_from-data_lines ts ls final (record new_event { type = t })
      ∙ (unfold new_event in refl)

  -- An event written as a type line, its data lines and a blank line is read back: the type, and the
  -- data lines each with a newline; the lines after the blank one are left for the next call.
  pub decode-event :
      (t : List ℕ) (ts ls : List (List ℕ)) (final : Option E)
      → decode
          (record { lines = event_line t ∷ (map data_line ts ++ ([] ∷ ls)); final_error = final })
        ≡ (
          ok (record { type = t; payload = unlines ts }),
          record { lines = ls; final_error = final },
        )
  unfolding decode
  decode-event t ts ls final =
      ap (λ p. (p.0, record { lines = p.1; final_error = final }))
        (decode_from-event t ts ([] ∷ ls) final ∙ (unfold decode_from in refl))

  -- The same event, ended by the end of the stream instead of a blank line: its payload has the
  -- newlines between the data lines, and none at its end.
  pub decode-event_at_end :
      (t u : List ℕ) (ts : List (List ℕ))
      → (decode {E = E}
          (record { lines = event_line t ∷ (map data_line (u ∷ ts) ++ []); final_error = none })).0
        ≡ ok (record { type = t; payload = join_lines u ts })
  unfolding decode
  decode-event_at_end t u ts =
      ap (λ p. p.0) (decode_from-event t (u ∷ ts) [] none)
      ∙ (unfold decode_from in
          ap (λ p. finish {E = E} (record { type = t; payload = p }) none)
            (unlines-join_lines u ts))
      ∙ finish-append t (join_lines u ts)

  -- A comment among the lines of an event changes nothing.
  pub decode_from-comment_line :
      (ls ms : List (List ℕ)) (text : List ℕ) (final : Option E) (event : SseEvent)
      → All (λ l. l ≢ []) ls
      → decode_from (ls ++ (comment_line text ∷ ms)) final event
        ≡ decode_from (ls ++ ms) final event
  unfolding decode_from comment_line
  decode_from-comment_line [] ms text final event h =
      ap (λ e. decode_from ms final e) (read_line-comment_line text event)
  decode_from-comment_line ([] ∷ ls) ms text final event h = absurd (h.0 refl)
  decode_from-comment_line ((c ∷ cs) ∷ ls) ms text final event h =
      decode_from-comment_line ls ms text final (read_line (c ∷ cs) event) h.1

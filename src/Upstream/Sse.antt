-- ===== src/Upstream/Sse.antt =====
-- `SSEDecoder` of internal/adapter/upstream/sse_decoder.go. `bufio.Scanner` is outside the program:
-- the decoder's state is the lines that it will still yield, and the error that it ends with.
mod Laws
mod Tests
use sentoris_proxy.Prelude.{
  ℕ, Bool, true, false, Option, none, some, List, [], ◌∷◌, ◌++◌, Result, ok, err, ◌==◌, codes,
  if◌then◌else◌,
}

pub record SseEvent : Type 0 where
  pub type : List ℕ
  pub payload : List ℕ

pub record Scanner (E : Type 0) : Type 0 where
  pub lines : List (List ℕ)
  pub final_error : Option E

pub data DecodeError (E : Type 0) : Type 0 where
  end_of_file : DecodeError E
  scanner_error : E → DecodeError E

-- The event that `Decode` starts from.
pub new_event : SseEvent
new_event = record { type = codes "message"; payload = [] }

-- `strings.SplitN(line, ":", 2)`: what stands before the first colon, and what follows it.
pub split_colon : List ℕ → List ℕ × Option (List ℕ)
split_colon [] = ([], none)
split_colon (c ∷ cs) =
    let (field, rest) = split_colon cs in if c == b':' then ([], some cs) else (c ∷ field, rest)

-- `strings.TrimPrefix(value, " ")`.
trim_space : List ℕ → List ℕ
trim_space [] = []
trim_space (c ∷ cs) = if c == b' ' then cs else c ∷ cs

value_of : Option (List ℕ) → List ℕ
value_of none = []
value_of (some v) = trim_space v

same_text : List ℕ → List ℕ → Bool
same_text [] [] = true
same_text [] (y ∷ ys) = false
same_text (x ∷ xs) [] = false
same_text (x ∷ xs) (y ∷ ys) = if x == y then same_text xs ys else false

-- The `switch` on the field's name.
apply_field : List ℕ → List ℕ → SseEvent → SseEvent
apply_field field value event =
    if same_text field (codes "event")
    then record event { type = value }
    else if same_text field (codes "data")
    then record event { payload = event.payload ++ (value ++ (10 ∷ [])) }
    else event

-- One line that is not empty: a comment, or a field.
pub read_line : List ℕ → SseEvent → SseEvent
unfolding split_colon trim_space value_of same_text apply_field
read_line [] event = event
read_line (c ∷ cs) event =
    if c == b':'
    then event
    else let (field, rest) = split_colon (c ∷ cs) in apply_field field (value_of rest) event

-- `strings.TrimSuffix(data, "\n")`.
pub trim_newline : List ℕ → List ℕ
trim_newline [] = []
trim_newline (c ∷ []) = if c == 10 then [] else c ∷ []
trim_newline (c ∷ (d ∷ ds)) = c ∷ trim_newline (d ∷ ds)

-- What follows the loop, when the scanner has no more lines.
finish : {E : Type 0} → SseEvent → Option E → Result (DecodeError E) SseEvent
unfolding trim_newline
finish event (some e) = err (scanner_error e)
finish (event) none = elim event.payload [
  | [] ↦ err end_of_file
  | c ∷ cs ↦ ok (record event { payload = trim_newline (c ∷ cs) })
]

-- The loop over the lines, with the event read so far. The second result is the lines left.
pub decode_from :
    {E : Type 0}
    → List (List ℕ)
    → Option E
    → SseEvent
    → Result (DecodeError E) SseEvent × List (List ℕ)
unfolding finish
decode_from [] final event = (finish event final, [])
decode_from ([] ∷ ls) final event = (ok event, ls)
decode_from ((c ∷ cs) ∷ ls) final event = decode_from ls final (read_line (c ∷ cs) event)

pub decode : {E : Type 0} → Scanner E → Result (DecodeError E) SseEvent × Scanner E
unfolding decode_from new_event
decode d = let (r, ls) = decode_from d.lines d.final_error new_event in (r, record d { lines = ls })

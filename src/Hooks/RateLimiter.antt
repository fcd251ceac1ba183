-- ===== src/Hooks/RateLimiter.antt =====
-- `RateLimiterHook` of internal/service/hooks/hooks.go. Times are nanoseconds; `now` is the time that
-- a call reads. A maximum is not negative.
pub mod Laws
mod Tests
use sentoris_proxy.Prelude.{
  ℕ, ◌+◌, ◌-◌, ◌==◌, Bool, true, false, Option, none, some, List, [], String, Map, lookup, insert,
  ltb, if◌then◌else◌,
}
use sentoris_proxy.Prelude.Int.{pos}
use sentoris_proxy.Domain.Value.{Fields, no_fields, integer, put}
use sentoris_proxy.Domain.Trace.{Trace}

pub record SessionRequestCounter : Type 0 where
  pub count : ℕ
  pub start_time : ℕ

pub record RateLimiter : Type 0 where
  pub requests : Map SessionRequestCounter
  pub max_requests_per_minute : ℕ

unfoldable pub new_rate_limiter_hook_with_limit : ℕ → RateLimiter
new_rate_limiter_hook_with_limit max = record { requests = []; max_requests_per_minute = max }

abbrev pub minute : ℕ
minute = 60_000_000_000

-- A refusal carries the limit that its message shows.
pub data RateError : Type 0 where
  rate_limit_exceeded : ℕ → RateError

unfoldable pub limit_of : RateLimiter → ℕ
limit_of h = if h.max_requests_per_minute == 0 then 100 else h.max_requests_per_minute

unfoldable pub session_of : Trace → String
session_of trace = elim trace.session_id [ none ↦ "default" | some id ↦ id ]

or_empty : Option Fields → Fields
or_empty none = no_fields
or_empty (some m) = m

note_count : (count limit : ℕ) → Trace → Trace
unfolding or_empty
note_count count limit trace = record trace {
  input = record (trace.input) {
    metadata = some (
        put "rate_limit_max" (integer (pos limit))
          (put "rate_limit_count" (integer (pos count)) (or_empty trace.input.metadata)));
  };
}

-- The new counter, and whether this call began the window.
unfoldable pub next_counter :
    (now : ℕ) → Option SessionRequestCounter → SessionRequestCounter × Bool
next_counter now none = (record { count = 1; start_time = now }, true)
next_counter now (some c) =
    if ltb minute (now - c.start_time)
    then (record { count = 1; start_time = now }, true)
    else (record c { count = c.count + 1 }, false)

unfoldable pub pre_execute :
    (now : ℕ) → RateLimiter → Trace → RateLimiter × Trace × Option RateError
unfolding session_of note_count
pre_execute now h trace =
    let limit = limit_of h in
    let (c, fresh) = next_counter now (lookup (session_of trace) h.requests) in
    let h' = record h {
      requests = insert (session_of trace) c h.requests;
      max_requests_per_minute = limit;
    } in
    if fresh
    then (h', trace, none)
    else if ltb limit c.count
    then (h', trace, some (rate_limit_exceeded limit))
    else (h', note_count c.count limit trace, none)

-- ===== src/Hooks/RateLimiter/Laws.antt =====
-- How many requests of a session the limiter lets through within a minute.
use sentoris_proxy.Prelude.{
  ℕ, ◌+◌, ◌-◌, ◌≤◌, min, ◌≡◌, refl, ◌⊎◌, inl, inr, Bool-cases, false, Option, none, some, List, [],
  ◌∷◌, String, Map, lookup, insert, lookup-insert, length, All, ltb, arith, eq_iff,
}
use sentoris_proxy.Domain.Trace.{Trace}
use sentoris_proxy.Hooks.RateLimiter.{
  SessionRequestCounter, RateLimiter, RateError, minute, limit_of, session_of, next_counter,
  pre_execute,
}

count_passed : Option RateError → ℕ → ℕ
count_passed none n = n + 1
count_passed (some e) n = n

-- One request for each time: the limiter after them, and the number that were let through.
pub admitted : List ℕ → Trace → RateLimiter → RateLimiter × ℕ
unfolding count_passed
admitted [] trace h = (h, 0)
admitted (now ∷ times) trace h =
    let p = pre_execute now h trace in
    let rest = admitted times trace p.0 in (rest.0, count_passed p.2 rest.1)

-- The counter of the trace's session has counted `count` requests since `start`.
record Window (limit count start : ℕ) (trace : Trace) (h : RateLimiter) : Type 0 where
  pub has_limit : limit_of h ≡ limit
  pub has_counter :
      lookup (session_of trace) h.requests ≡ some (record { count = count; start_time = start })

lookup-insert-same :
    (k : String) (c : SessionRequestCounter) (m : Map SessionRequestCounter)
    → lookup k (insert k c m) ≡ some c
lookup-insert-same k c m = ground (arith, lookup-insert k k c m, eq_iff k k)

not_late : (start now : ℕ) → now ≤ start + minute → ltb minute (now - start) ≡ false
not_late start now h = ground arith

limit_kept :
    (limit : ℕ) (requests : Map SessionRequestCounter)
    → 1 ≤ limit
    → limit_of (record { requests = requests; max_requests_per_minute = limit }) ≡ limit
unfolding limit_of
limit_kept limit requests h = ground arith

-- A request within the minute of the counter is counted, and let through up to the limit.
abbrev Counted : ℕ → ℕ → ℕ → Trace → RateLimiter × Trace × Option RateError → Type 0
Counted limit count start trace p =
    Window limit (count + 1) start trace p.0
    × (((limit ≤ count) × ((e : RateError) × (p.2 ≡ some e)))
        ⊎ ((count + 1 ≤ limit) × (p.2 ≡ none)))

pre_execute-Counted :
    (limit count start now : ℕ) (trace : Trace) (h : RateLimiter)
    → 1 ≤ limit
    → Window limit count start trace h
    → now ≤ start + minute
    → Counted limit count start trace (pre_execute now h trace)
unfolding pre_execute next_counter
pre_execute-Counted limit count start now trace h pos w early =
    rw (w.has_limit, w.has_counter, not_late start now early)
      (elim (Bool-cases (ltb limit (count + 1))) [
        | inl over ↦ rw over (kept, inl (ground arith, (_, refl)))
        | inr within ↦ rw within (kept, inr (ground arith, refl))
      ])
  where
    kept : Window limit (count + 1) start trace (record {
      requests =
          insert (session_of trace) (record { count = count + 1; start_time = start }) h.requests;
      max_requests_per_minute = limit;
    })
    kept = record {
      has_limit = limit_kept limit _ pos;
      has_counter = lookup-insert-same (session_of trace) _ h.requests;
    }

step-over :
    (now : ℕ) (times : List ℕ) (trace : Trace) (h : RateLimiter) (e : RateError)
    → (pre_execute now h trace).2 ≡ some e
    → (admitted (now ∷ times) trace h).1 ≡ (admitted times trace (pre_execute now h trace).0).1
unfolding admitted count_passed
step-over now times trace h e refused = rw (admitted, refused) refl

step-within :
    (now : ℕ) (times : List ℕ) (trace : Trace) (h : RateLimiter)
    → (pre_execute now h trace).2 ≡ none
    → (admitted (now ∷ times) trace h).1 ≡ (admitted times trace (pre_execute now h trace).0).1 + 1
unfolding admitted count_passed
step-within now times trace h passed = rw (admitted, passed) refl

admitted-Window :
    (limit count start : ℕ) (times : List ℕ) (trace : Trace) (h : RateLimiter)
    → 1 ≤ limit
    → Window limit count start trace h
    → All (λ now. now ≤ start + minute) times
    → (admitted times trace h).1 ≡ min (length times) (limit - count)
unfolding admitted
admitted-Window limit count start [] trace h pos w early = omega arith
admitted-Window limit count start (now ∷ times) trace h pos w early =
    let counted = pre_execute-Counted limit count start now trace h pos w early.0 in
    let rest = admitted-Window limit (count + 1) start times trace _ pos counted.0 early.1 in
    elim counted.1 [
      | inl over ↦ omega (arith, rest, over.0, step-over now times trace h over.1.0 over.1.1)
      | inr within ↦ omega (arith, rest, within.0, step-within now times trace h within.1)
    ]

some_limit : (h : RateLimiter) → 1 ≤ limit_of h
unfolding limit_of
some_limit h = ground arith

begins :
    (now : ℕ) (trace : Trace) (h : RateLimiter)
    → lookup (session_of trace) h.requests ≡ none
    → Window (limit_of h) 1 now trace (pre_execute now h trace).0
      × ((pre_execute now h trace).2 ≡ none)
unfolding pre_execute next_counter
begins now trace h fresh = rw fresh (
  record {
    has_limit = limit_kept (limit_of h) _ (some_limit h);
    has_counter = lookup-insert-same (session_of trace) _ h.requests;
  },
  refl,
)

-- Of the requests that a session makes within a minute of its first one, the limiter lets through as
-- many as there are, up to the limit, which is 100 where it is set to 0.
pub admitted_within_minute :
    (h : RateLimiter) (trace : Trace) (start : ℕ) (times : List ℕ)
    → lookup (session_of trace) h.requests ≡ none
    → All (λ now. now ≤ start + minute) times
    → (admitted (start ∷ times) trace h).1 ≡ min (length times + 1) (limit_of h)
admitted_within_minute h trace start times fresh early =
    let first = begins start trace h fresh in
    omega (
      arith,
      step-within start times trace h first.1,
      admitted-Window (limit_of h) 1 start times trace _ (some_limit h) first.0 early,
      some_limit h,
    )

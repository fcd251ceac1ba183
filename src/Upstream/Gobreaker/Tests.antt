-- ===== src/Upstream/Gobreaker/Tests.antt =====
-- The retry loop in a world of three numbers: calls, time slept, failures still to come.
use sentoris_proxy.Prelude.{
  ℕ, ◌+◌, ◌-◌, ◌≡◌, refl, true, Result, ok, err, arith, is_ok, ltb, if◌then◌else◌,
}
use sentoris_proxy.Upstream.Counting.{IsCounted}
use sentoris_proxy.Upstream.Gobreaker.{ready_to_trip, with_retries}
use sentoris_proxy.Upstream.Gobreaker.Laws.{Recovers, with_retries_recovers}

record World : Type 0 where
  calls : ℕ
  slept : ℕ
  down : ℕ

abbrev dead : World → World × Result ℕ ℕ
dead w = (record w { calls = w.calls + 1 }, err 7)

abbrev flaky : World → World × Result ℕ ℕ
flaky w =
    (record w { calls = w.calls + 1; down = w.down - 1 }, if ltb 0 w.down then err 7 else ok 9)

abbrev nap : ℕ → World → World
nap d w = record w { slept = w.slept + d }

abbrev start : World
start = record { calls = 0; slept = 0; down = 2 }

flaky_run : (with_retries nap 3 10 flaky start).1 ≡ ok 9
unfolding with_retries
flaky_run = refl

half_failed_trips : ready_to_trip (record { requests = 6; total_failures = 3 }) ≡ true
unfolding ready_to_trip
half_failed_trips = refl

dead-IsCounted : IsCounted dead nap (λ w. w.calls) (λ w. w.slept)
dead-IsCounted = record {
  call_calls = λ w. refl;
  call_slept = λ w. refl;
  sleep_calls = λ d w. refl;
  sleep_slept = λ d w. refl;
}

flaky-Recovers : Recovers nap 3 10 flaky (λ w. w.down)
flaky-Recovers = record {
  fails =
      λ w h. (record w { calls = w.calls + 1; down = w.down - 1 }, 7, ground arith, omega arith);
  answers = λ w h. (record w { calls = w.calls + 1; down = w.down - 1 }, 9, ground arith);
  sleep_down = λ d w. refl;
}

with_retries_recovers_example : is_ok (with_retries nap 3 10 flaky start).1 ≡ true
with_retries_recovers_example =
    with_retries_recovers nap 3 10 flaky (λ w. w.down) flaky-Recovers start (omega arith)

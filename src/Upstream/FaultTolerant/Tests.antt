-- ===== src/Upstream/FaultTolerant/Tests.antt =====
-- Runs of the retry loop, in a world that counts the calls and adds up the sleep.
use sentoris_proxy.Prelude.{
  ℕ, ◌+◌, ◌≤◌, ◌≡◌, refl, ◌≢◌, true, false, none, Result, err, arith, codes,
}
use sentoris_proxy.Upstream.Counting.{IsCounted}
use sentoris_proxy.Upstream.FaultTolerant.{
  UpstreamError, is_retryable, contains_bytes, panics, attempts, chat, new_breaker,
}
use sentoris_proxy.Upstream.FaultTolerant.Laws.{chat_never_panics, chat-failure_count}

abbrev World : Type 0
World = ℕ × ℕ

abbrev timed_out : UpstreamError
timed_out = record { message = codes "i/o timeout"; deadline_exceeded = false; canceled = false }

abbrev denied : UpstreamError
denied = record { message = codes "401"; deadline_exceeded = false; canceled = false }

abbrev busy : World → World × Result UpstreamError ℕ
busy w = ((w.0 + 1, w.1), err timed_out)

abbrev refusing : World → World × Result UpstreamError ℕ
refusing w = ((w.0 + 1, w.1), err denied)

abbrev nap : ℕ → World → World
nap d w = (w.0, w.1 + d)

abbrev calls_of : World → ℕ
calls_of w = w.0

abbrev slept_of : World → ℕ
slept_of w = w.1

timeout_is_retryable : is_retryable timed_out ≡ true
unfolding is_retryable contains_bytes
timeout_is_retryable = refl

refusal_is_not_retried : (attempts refusing nap 3 0 none (0, 0)).0 ≡ (1, 0)
unfolding attempts is_retryable
refusal_is_not_retried = refl

busy-IsCounted : IsCounted busy nap calls_of slept_of
busy-IsCounted = record {
  call_calls = λ w. refl;
  call_slept = λ w. refl;
  sleep_calls = λ d w. refl;
  sleep_slept = λ d w. refl;
}

chat_never_panics_example : (chat busy nap slept_of 3 new_breaker (0, 0)).2 ≢ panics
chat_never_panics_example = chat_never_panics busy nap slept_of 3 new_breaker (0, 0) (omega arith)

chat-failure_count_example :
    (chat busy nap slept_of 3 new_breaker (0, 0)).0.failure_count ≤ new_breaker.failure_count + 1
chat-failure_count_example = chat-failure_count busy nap slept_of 3 new_breaker (0, 0)

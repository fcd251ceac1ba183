-- ===== src/Governance/Interceptor.antt =====
-- internal/service/governance/stream_budget_interceptor.go. Prices are millionths of a dollar for a
-- thousand tokens, and amounts are counted in the two-thousandth part of that, so that the mean of
-- two prices for a number of tokens is a whole amount. A text is the list of its code points.
pub mod Balance
pub mod Laws
mod Tests
use sentoris_proxy.Prelude.{
  ℕ, ◌+◌, ◌*◌, ◌/◌, Bool, true, false, ◌&&◌, ◌||◌, ◌==◌, leb, Option, none, some, List, [], ◌∷◌,
  String, Result, ok, err, str_eq, if◌then◌else◌,
}
use sentoris_proxy.Prelude.Int.{ℤ, pos, ◌+ℤ◌, ltb_ℤ}
use sentoris_proxy.Storage.BudgetStore.{BudgetStore}
use sentoris_proxy.Router.ModelRouter.{
  ModelRouter, RouterError, Pricing, get_pricing, get_degrade_model,
}

is_chinese : ℕ → Bool
is_chinese r = leb 0x4e00 r && leb r 0x9fff

-- Twice the Chinese characters and once the others: the fourths of a token.
quarter_tokens : List ℕ → ℕ
unfolding is_chinese
quarter_tokens [] = 0
quarter_tokens (r ∷ rs) = (if is_chinese r then 2 else 1) + quarter_tokens rs

-- `math.Ceil` of the sum of fourths.
unfoldable pub estimate_tokens : List ℕ → ℕ
unfolding quarter_tokens
estimate_tokens content = (quarter_tokens content + 3) / 4

pub record Interceptor : Type 0 where
  pub budget_limit : ℤ
  pub strategy : String
  pub model : String
  pub session_id : String
  pub reserved_amount : ℤ

unfoldable pub new_interceptor : ℤ → String → String → String → Interceptor
new_interceptor limit strategy model session_id = record {
  budget_limit = limit;
  strategy = strategy;
  model = model;
  session_id = session_id;
  reserved_amount = pos 0;
}

pub data InterceptError : Type 0 where
  failed_to_reserve : String → InterceptError
  failed_to_commit : String → InterceptError
  failed_to_rollback : String → InterceptError
  budget_exceeded : InterceptError

is_error : Option RouterError → Bool
is_error none = false
is_error (some e) = true

abbrev pub fallback_price : ℕ
fallback_price = 2_000

-- The sum of the two prices, or of twice the default where one is missing.
price_sum : Pricing → ℕ
unfolding is_error
price_sum p =
    if is_error p.error || (p.input == 0 || p.output == 0)
    then fallback_price + fallback_price
    else p.input + p.output

unfoldable pub estimate_cost : ModelRouter → String → ℕ → ℤ
unfolding price_sum
estimate_cost router model tokens = pos (tokens * price_sum (get_pricing router model))

-- The rest of a stream after one chunk: the loop that a caller makes over the chunks.
unfoldable pub go_on :
    {S : Type 0}
    → (Interceptor → S → S × Interceptor × Result InterceptError Bool)
    → S × Interceptor × Result InterceptError Bool
    → S × Interceptor × Result InterceptError Bool
go_on again (s, i, ok true) = again i s
go_on again (s, i, ok false) = (s, i, ok false)
go_on again (s, i, err e) = (s, i, err e)

module _ {S : Type 0} (store : BudgetStore S) where
  -- The rollback of a hard stop: its error is dropped, and `reservedAmount` keeps its value.
  unfoldable pub release : Interceptor → S → S
  release i s =
      if ltb_ℤ (pos 0) i.reserved_amount
      then (store.rollback i.session_id i.reserved_amount s).0
      else s

  degrade_to : Option String → Interceptor → Interceptor
  degrade_to none i = i
  degrade_to (some model) i = record i { model = model }

  unfoldable pub handle_budget_exceeded :
      ModelRouter → Interceptor → S → S × Interceptor × Result InterceptError Bool
  unfolding release degrade_to
  handle_budget_exceeded router i s =
      if str_eq i.strategy "hard_stop"
      then (release i s, i, err budget_exceeded)
      else if str_eq i.strategy "degrade"
      then (s, degrade_to (get_degrade_model router i.model) i, ok true)
      else if str_eq i.strategy "soft_alert"
      then (s, i, ok true)
      else (release i s, i, err budget_exceeded)

  -- What follows the call of `Reserve`.
  settle_reserve :
      ModelRouter
      → Interceptor
      → ℤ
      → S × Result String Bool
      → S × Interceptor × Result InterceptError Bool
  unfolding handle_budget_exceeded
  settle_reserve router i cost (s, err e) = (s, i, err (failed_to_reserve e))
  settle_reserve router i cost (s, ok false) = handle_budget_exceeded router i s
  settle_reserve router i cost (s, ok true) =
      (s, record i { reserved_amount = i.reserved_amount +ℤ cost }, ok true)

  unfoldable pub intercept :
      ModelRouter → Interceptor → List ℕ → S → S × Interceptor × Result InterceptError Bool
  unfolding settle_reserve
  intercept router i content s =
      let cost = estimate_cost router i.model (estimate_tokens content) in
      if ltb_ℤ (pos 0) i.budget_limit
      then settle_reserve router i cost (store.reserve i.session_id cost s)
      else (s, i, ok true)

  settle_with :
      (String → InterceptError)
      → Interceptor
      → S × Option String
      → S × Interceptor × Option InterceptError
  settle_with wrap i (s, some e) = (s, i, some (wrap e))
  settle_with wrap i (s, none) = (s, record i { reserved_amount = pos 0 }, none)

  unfoldable pub commit_stream : Interceptor → S → S × Interceptor × Option InterceptError
  unfolding settle_with
  commit_stream i s =
      if ltb_ℤ (pos 0) i.reserved_amount
      then settle_with failed_to_commit i (store.commit i.session_id i.reserved_amount s)
      else (s, i, none)

  unfoldable pub rollback_stream : Interceptor → S → S × Interceptor × Option InterceptError
  unfolding settle_with
  rollback_stream i s =
      if ltb_ℤ (pos 0) i.reserved_amount
      then settle_with failed_to_rollback i (store.rollback i.session_id i.reserved_amount s)
      else (s, i, none)

  -- A stream of chunks, each intercepted in turn until one is refused.
  unfoldable pub intercept_all :
      ModelRouter → List (List ℕ) → Interceptor → S → S × Interceptor × Result InterceptError Bool
  unfolding go_on
  intercept_all router [] i s = (s, i, ok true)
  intercept_all router (content ∷ rest) i s =
      go_on (λ i' s'. intercept_all router rest i' s') (intercept router i content s)

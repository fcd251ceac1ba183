-- ===== src/Hooks.antt =====
-- internal/service/hooks/hooks.go: the chain of hooks and the rate limiter. A hook may change the
-- trace that it is given and the world `W`, where its own state is. `Priority` orders nothing.
pub mod RateLimiter
use sentoris_proxy.Prelude.{
  Bool, false, Option, none, some, List, [], ◌∷◌, ◌++◌, String, str_eq, Map, insert, lookup, values,
  if◌then◌else◌,
}
use sentoris_proxy.Domain.Trace.{Trace}

pub record HookError : Type 0 where
  pub message : String
  pub is_fatal : Bool
  pub is_degrade : Bool

abbrev pub HookCall : Type 0 → Type 0
HookCall W = Trace → W → W × Trace × Option HookError

pub record Hook (W : Type 0) : Type 0 where
  pub name : String
  pub pre_execute : HookCall W
  pub pre_stream : HookCall W
  pub post_stream : HookCall W
  pub on_failure : HookCall W

pub record HookChain (W : Type 0) : Type 0 where
  pub hooks : List (Hook W)
  pub strategy : String

noop : {W : Type 0} → HookCall W
noop trace w = (w, trace, none)

pub new_noop_hook : {W : Type 0} → Hook W
unfolding noop
new_noop_hook = record {
  name = "noop";
  pre_execute = noop;
  pre_stream = noop;
  post_stream = noop;
  on_failure = noop;
}

-- Whether the loop of `executeHooks` ends at this result.
stops : String → Option HookError → Bool
stops strategy none = false
stops strategy (some e) = str_eq strategy "short-circuit"

module _ {W : Type 0} where
  pub register : Map (Hook W) → Hook W → Map (Hook W)
  register r hook = insert hook.name hook r

  pub get : Map (Hook W) → String → Option (Hook W)
  get r name = lookup name r

  pub list : Map (Hook W) → List (Hook W)
  list r = values r

  unfoldable pub new_hook_chain : String → HookChain W
  new_hook_chain strategy = record {
    hooks = [];
    strategy = if str_eq strategy "" then "short-circuit" else strategy;
  }

  pub add_hook : Hook W → HookChain W → HookChain W
  add_hook hook c = record c { hooks = c.hooks ++ (hook ∷ []) }

  unfoldable pub execute_hooks :
      String → (Hook W → HookCall W) → List (Hook W) → Trace → W → W × Trace × Option HookError
  unfolding stops
  execute_hooks strategy fn [] trace w = (w, trace, none)
  execute_hooks strategy fn (hook ∷ hooks) trace w =
      let (w', trace', result) = fn hook trace w in
      let rest = execute_hooks strategy fn hooks trace' w' in
      if stops strategy result then (w', trace', result) else rest

  unfoldable pub chain_pre_execute : HookChain W → HookCall W
  chain_pre_execute c = execute_hooks c.strategy (λ h. h.pre_execute) c.hooks

  unfoldable pub chain_pre_stream : HookChain W → HookCall W
  chain_pre_stream c = execute_hooks c.strategy (λ h. h.pre_stream) c.hooks

  unfoldable pub chain_post_stream : HookChain W → HookCall W
  chain_post_stream c = execute_hooks c.strategy (λ h. h.post_stream) c.hooks

  -- The loop of `OnFailure`, which drops every error.
  fail_all : List (Hook W) → Trace → W → W × Trace
  fail_all [] trace w = (w, trace)
  fail_all (hook ∷ hooks) trace w =
      let (w', trace', _) = hook.on_failure trace w in fail_all hooks trace' w'

  unfoldable pub chain_on_failure : HookChain W → HookCall W
  unfolding fail_all
  chain_on_failure c trace w = let (w', trace') = fail_all c.hooks trace w in (w', trace', none)

-- ===== src/Transport/Chat/Handler/Storing.antt =====
-- The trace that a request leaves in the store of traces.
use sentoris_proxy.Prelude.{
  arith, sym, ◌≡◌, refl, ap, ◌∙◌, ◌⊎◌, inl, inr, Bool, Bool-cases, true, false, String,
}
use mathlib.Core.Path.{subst}
use sentoris_proxy.Prelude.Int.{ℤ}
use sentoris_proxy.Domain.Trace.{Trace, executing, finalized}
use sentoris_proxy.Transport.Headers.{SentorisHeaders}
use sentoris_proxy.Transport.Chat.{
  ChatRequest, ChatResponse, Response, Services, Server, Job, move, enter, store_update,
  apply_transitions,
}
use sentoris_proxy.Transport.Chat.Stages.{Ids, Reply, note_response, commit_budget, with_budgets}
use sentoris_proxy.Transport.Chat.Handler.{
  conclude, reply_with, finish, upstream_failed, refuse, start, handle_request,
}
use sentoris_proxy.Transport.Chat.Handler.Path.{started, with_world, handle_request-ends}
use sentoris_proxy.Transport.Chat.Handler.States.{
  Failed, Finalized, no_provider-Failed, over_budget-Failed, upstream_failed-Failed,
  finish-Finalized, started_state, started-Chain,
}

module _ {T S W : Type 0} (sv : Services T S W) (h : SentorisHeaders) (req : ChatRequest)
    (ids : Ids) where
  -- The last call to the store was an update with the trace `t`.
  abbrev pub Stores : Trace → Job T S W → Type 0
  Stores t j = (earlier : T) × (j.server.traces ≡ sv.update t earlier)

  -- What the store was given last, at the end of a request.
  abbrev pub Stored : Job T S W × Reply → Type 0
  Stored p =
      ((Failed sv p ⊎ (Finalized sv req p × (req.stream ≡ false))) × Stores p.0.trace p.0)
      ⊎ (Finalized sv req p
          × (req.stream ≡ true)
          × (p.0.trace.execution_state ≡ finalized)
          × ((t : Trace) × (t.execution_state ≡ executing) × Stores t p.0))

  traces-commit :
      (b : Bool) (resp : ChatResponse) (j : Job T S W)
      → (commit_budget sv b ids.session_id resp.cost_usd j).server.traces ≡ j.server.traces
  unfolding commit_budget with_budgets
  traces-commit b resp j = ground arith

  refuse-Stores :
      (note : Trace → Trace) (r : Response) (j : Job T S W)
      → Stores (refuse sv note r j).0.trace (refuse sv note r j).0
  unfolding refuse store_update
  refuse-Stores note r j = (_, refl)

  upstream_failed-Stores :
      (b : Bool) (amount : ℤ) (e : String) (j : Job T S W)
      → let p = upstream_failed sv ids b amount e j in Stores p.0.trace p.0
  unfolding upstream_failed store_update
  upstream_failed-Stores b amount e j = (_, refl)

  conclude-Stores : (j : Job T S W) → Stores (conclude sv j).trace (conclude sv j)
  unfolding conclude store_update
  conclude-Stores j = (_, refl)

  reply_with-streamed :
      (resp : ChatResponse) (j : Job T S W)
      → req.stream ≡ true
      → (reply_with sv h req ids resp j).0 ≡ j
  unfolding reply_with
  reply_with-streamed resp j streamed = rw streamed refl

  reply_with-whole :
      (resp : ChatResponse) (j : Job T S W)
      → req.stream ≡ false
      → (reply_with sv h req ids resp j).0 ≡ conclude sv j
  unfolding reply_with
  reply_with-whole resp j whole = rw whole refl

  reply_with-Stored :
      (resp : ChatResponse) (j : Job T S W) (t : Trace)
      → t.execution_state ≡ executing
      → Stores t j
      → j.trace.execution_state ≡ finalized
      → Finalized sv req (reply_with sv h req ids resp j)
      → Stored (reply_with sv h req ids resp j)
  reply_with-Stored resp j t at s done f = elim (Bool-cases req.stream) [
    | inl streamed ↦
        let same = reply_with-streamed resp j streamed in
        inr (
          f,
          streamed,
          ap (λ k. k.trace.execution_state) same ∙ done,
          (t, at, (s.0, ap (λ k. k.server.traces) same ∙ s.1)),
        )
    | inr whole ↦ inl (
      inr (f, whole),
      subst (λ k. Stores k.trace k) (sym (reply_with-whole resp j whole)) (conclude-Stores j),
    )
  ]

  finish-Stored :
      (b : Bool) (resp : ChatResponse) (j : Job T S W) (t : Trace)
      → t.execution_state ≡ executing
      → Stores t j
      → Finalized sv req (finish sv h req ids b resp j)
      → Stored (finish sv h req ids b resp j)
  unfolding finish note_response apply_transitions enter move
  finish-Stored b resp j t at s f =
      reply_with-Stored _ _ t at (s.0, traces-commit b resp j ∙ s.1) refl f

  started-Stores :
      (server : Server T S W)
      → Stores (started sv h req ids server).trace (started sv h req ids server)
  unfolding start store_update
  started-Stores server = (_, refl)

  -- What the store of traces is given last is the trace as it is at the end of the request, with one
  -- exception: a stream that the provider has answered ends with its trace FINALIZED, while the last
  -- one given to the store is EXECUTING.
  pub handle_request-Stored : (server : Server T S W) → Stored (handle_request sv h req ids server)
  unfolding with_budgets
  handle_request-Stored server =
      let at = started_state sv h req ids server in
      let c = started-Chain sv h req ids server in
      let j = started sv h req ids server in
      let called = λ (w : W) (s : S). with_world sv h req ids w (with_budgets sv s j) in
      handle_request-ends sv h req ids (λ config r. Unit {0}) Stored server
        (record {
          on_no_provider = inl (inl (no_provider-Failed sv h req ids server), refuse-Stores _ _ j);
          on_refused = λ config s q. inl (
            inl (over_budget-Failed sv h req ids server s),
            refuse-Stores _ _ (with_budgets sv s j),
          );
          on_failure = λ config b s w e q _ _. inl (
            inl (upstream_failed-Failed sv h req ids b _ e (called w s) at c),
            upstream_failed-Stores b _ e (called w s),
          );
          on_answer = λ config b s w resp q _ _.
              finish-Stored b resp (called w s) j.trace at (started-Stores server)
                (finish-Finalized sv h req ids b resp (called w s) at c);
        })
        (λ config. tt)

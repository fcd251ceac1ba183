-- ===== src/Transport/Replay/Laws.antt =====
-- What a replay leaves in the stores, on every path.
use sentoris_proxy.Prelude.{
  ◌≡◌, ◌∙◌, refl, ap, inl, inr, ◌⊎◌, Bool-cases, Option, none, some, List, String, Map, Result, ok,
  err, str_eq, In, ℕ,
}
use sentoris_proxy.Prelude.Int.{ℤ}
use sentoris_proxy.Domain.Value.{Message, messages}
use sentoris_proxy.Domain.Trace.{Trace, finalized, fill_defaults}
use sentoris_proxy.Domain.RiskReport.{RiskReport}
use sentoris_proxy.Router.ModelRouter.{ProviderConfig}
use sentoris_proxy.Transport.Chat.{ChatRequest, ChatResponse, Response}
use sentoris_proxy.Transport.Headers.{SentorisHeaders}
use sentoris_proxy.Audit.Signer.{SignError, sign}
use sentoris_proxy.Audit.Signer.Laws.{sign-messages}
use sentoris_proxy.Transport.Replay.{
  ReplayRequest, ReplayServices, ReplayServer, ReplayReply, Fresh, failed_with, replayed,
  candidate_trace, with_sign, save_to, conclude_replay, answer_replay, replay_at, replay_found,
  handle_replay_eval, chat_request, model_to_use, focus_of, with_focus,
}

module _ {T R W : Type 0} (sv : ReplayServices T R W) where
  -- A failure that leaves both stores as they were.
  abbrev pub IsRefused : ReplayServer T R W → ReplayServer T R W × ReplayReply → Type 0
  IsRefused server (after, reply) =
      (response : Response) × (reply ≡ failed_with response)
      × (after.traces ≡ server.traces)
      × (after.reports ≡ server.reports)

  -- A report on the baseline and a trace that is its child, which is saved with the report.
  abbrev pub IsReplayed :
      (focus : List String) → Trace → ReplayServer T R W → ReplayServer T R W × ReplayReply → Type 0
  IsReplayed focus baseline server (after, reply) =
      (candidate : Trace) × (headers : Map String) × (report : RiskReport) × (candidate.parent_id
        ≡ some (baseline.trace_id))
      × (candidate.execution_state ≡ finalized)
      × (candidate.input.prompt ≡ baseline.input.prompt)
      × (after.traces ≡ sv.save candidate server.traces)
      × (report ≡ with_focus focus (sv.compare_traces baseline candidate))
      × (after.reports ≡ save_to sv sv.save_report report server.reports)
      × (reply ≡ replayed headers report)

  -- Signing changes nothing but the signature.
  Keeps : Trace → Trace → Type 0
  Keeps t signed =
      (signed.parent_id ≡ t.parent_id)
      × (signed.execution_state ≡ t.execution_state)
      × (signed.input ≡ t.input)

  with_sign-Keeps : (o : Option (Trace → Option String)) (t : Trace) → Keeps t (with_sign sv o t)
  unfolding with_sign Keeps
  with_sign-Keeps none t = (refl, refl, refl)
  with_sign-Keeps (some sign_it) t = of (sign_it t)
    where
      of :
          (o : Option String)
          → Keeps t (elim o as (λ o. Trace) [
            | none ↦ t
            | some s ↦ record t { proofs = record (t.proofs) { audit_signature = s } }
          ])
      of none = (refl, refl, refl)
      of (some s) = (refl, refl, refl)

  conclude_replay-IsReplayed :
      (ids : Fresh) (baseline : Trace) (req : ReplayRequest) (focus : List String)
      (sent : ChatRequest) (resp : ChatResponse) (server : ReplayServer T R W)
      → IsReplayed focus baseline server
          (conclude_replay sv ids baseline req focus sent resp server)
  unfolding conclude_replay candidate_trace Keeps fill_defaults
  conclude_replay-IsReplayed ids baseline req focus sent resp server =
      let (parent, state, input) =
        with_sign-Keeps sv.sign (candidate_trace ids baseline req sent resp) in
      (_, _, _, parent, state, ap (λ i. i.prompt) input, refl, refl, refl, refl)

  answer_replay-cases :
      (ids : Fresh) (baseline : Trace) (req : ReplayRequest) (focus : List String)
      (sent : ChatRequest) (server : ReplayServer T R W) (answer : Result String ChatResponse)
      → IsRefused server (answer_replay sv ids baseline req focus sent server answer)
        ⊎ IsReplayed focus baseline server
            (answer_replay sv ids baseline req focus sent server answer)
  unfolding answer_replay
  answer_replay-cases ids baseline req focus sent server (err e) = inl (_, refl, refl, refl)
  answer_replay-cases ids baseline req focus sent server (ok resp) =
      inr (conclude_replay-IsReplayed ids baseline req focus sent resp server)

  replay_at-cases :
      (ids : Fresh) (h : SentorisHeaders) (req : ReplayRequest) (baseline : Trace)
      (server : ReplayServer T R W) (provider : Option ProviderConfig)
      → IsRefused server (replay_at sv ids h req baseline server provider)
        ⊎ IsReplayed
            (focus_of req.focus_fields h.focus_fields)
            baseline
            server
            (replay_at sv ids h req baseline server provider)
  unfolding replay_at
  replay_at-cases ids h req baseline server none = inl (_, refl, refl, refl)
  replay_at-cases ids h req baseline server (some config) =
      answer_replay-cases ids baseline req _
        (chat_request sv.show (model_to_use baseline req h) baseline req)
        (record server { world = _ }) _

  -- A stored baseline, and what became of it.
  abbrev pub IsReplayOf :
      (focus : List String)
      → Option Trace
      → ReplayServer T R W
      → ReplayServer T R W × ReplayReply
      → Type 0
  IsReplayOf focus found server outcome =
      (baseline : Trace) × (found ≡ some baseline) × IsReplayed focus baseline server outcome

  replay_found-cases :
      (ids : Fresh) (h : SentorisHeaders) (req : ReplayRequest) (server : ReplayServer T R W)
      (found : Option Trace)
      → IsRefused server (replay_found sv ids h req server found)
        ⊎ IsReplayOf
            (focus_of req.focus_fields h.focus_fields)
            found
            server
            (replay_found sv ids h req server found)
  unfolding replay_found
  replay_found-cases ids h req server none = inl (_, refl, refl, refl)
  replay_found-cases ids h req server (some baseline) =
      elim (replay_at-cases ids h req baseline server _) [
        | inl refused ↦ inl refused
        | inr done ↦ inr (baseline, refl, done)
      ]

  -- A replay fails and leaves the stores of traces and of reports as they were; or the baseline is
  -- stored, and the reply is the report on it and a finalized child of it with the same prompt, which
  -- is saved, with the report where reports are kept. The report names the focus fields of the request,
  -- or those of the header if the request has none.
  pub handle_replay_eval_lem :
      (ids : Fresh) (method : String) (h : SentorisHeaders) (req : ReplayRequest)
      (server : ReplayServer T R W)
      → IsRefused server (handle_replay_eval sv ids method h (ok req) server)
        ⊎ IsReplayOf
            (focus_of req.focus_fields h.focus_fields)
            (sv.get req.baseline_trace_id server.traces)
            server
            (handle_replay_eval sv ids method h (ok req) server)
  unfolding handle_replay_eval
  handle_replay_eval_lem ids method h req server = elim (Bool-cases (str_eq method "POST")) [
    | inl post ↦ rw post (replay_found-cases ids h req server _)
    | inr other ↦ rw other (inl (_, refl, refl, refl))
  ]

with_sign-unsigned :
    {T R W : Type 0} (sv : ReplayServices T R W) (sign_it : Trace → Option String) (t : Trace)
    → sign_it t ≡ none
    → with_sign sv (some sign_it) t ≡ t
unfolding with_sign
with_sign-unsigned sv sign_it t h = rw h refl

-- A signature, where the signer has no error.
pub signed_text : Result SignError String → Option String
signed_text (ok s) = some s
signed_text (err e) = none

module _ (sort : List String → List String) (show_int show_float : ℤ → List ℕ)
    (compute_sha256_hex : List ℕ → String) (format_time : ℕ → String)
    (keeps : (k : String) (ks : List String) → In k ks → In k (sort ks)) where
  -- If the prompt of the baseline is a list of messages, as that of each chat request is, what a
  -- replay saves has no signature.
  pub conclude_replay-messages :
      {T R W : Type 0} (sv : ReplayServices T R W)
      → sv.sign
        ≡ some (λ t.
          signed_text (sign sort show_int show_float compute_sha256_hex format_time (some t)))
      → (ids : Fresh) (baseline : Trace) (req : ReplayRequest) (focus : List String)
        (sent : ChatRequest) (resp : ChatResponse) (server : ReplayServer T R W) (ms : List Message)
      → baseline.input.prompt ≡ messages ms
      → ((conclude_replay sv ids baseline req focus sent resp server).0.traces
          ≡ sv.save (candidate_trace ids baseline req sent resp) server.traces)
        × ((candidate_trace ids baseline req sent resp).proofs.audit_signature ≡ "")
  unfolding conclude_replay candidate_trace with_sign fill_defaults signed_text
  conclude_replay-messages sv signs ids baseline req focus sent resp server ms e =
      let (_, failed) =
        sign-messages sort show_int show_float compute_sha256_hex format_time keeps
          (candidate_trace ids baseline req sent resp) ms e in
      let candidate = candidate_trace ids baseline req sent resp in
      (
        ap (λ saved. sv.save saved server.traces)
            (ap (λ o. with_sign sv o candidate) signs
              ∙ with_sign-unsigned sv
                  (λ t.
                    signed_text
                      (sign sort show_int show_float compute_sha256_hex format_time (some t)))
                  candidate (ap signed_text failed)),
        refl,
      )

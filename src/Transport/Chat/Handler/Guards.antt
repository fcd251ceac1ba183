-- ===== src/Transport/Chat/Handler/Guards.antt =====
-- The guards of the handler: requests that are turned away before they have a trace.
use sentoris_proxy.Prelude.{
  ◌≡◌, refl, ◌≢◌, true, false, Option, none, some, String, ok, err, str_eq, eq_iff, arith,
}
use sentoris_proxy.Prelude.Int.{ℤ}
use sentoris_proxy.Errors.{new_sentoris_error, wrap_error, http_status_code, status_of}
use sentoris_proxy.Transport.Headers.{parse_sentoris_headers, is_version_supported}
use sentoris_proxy.Transport.Chat.{
  ChatRequest, Response, Services, Server, Job, handle_error, handle_sentoris_error,
  handle_error_with_message, as_sentoris_error,
}
use sentoris_proxy.Transport.Chat.Stages.{Ids, Reply, answers}
use sentoris_proxy.Transport.Chat.Handler.{
  HttpRequest, override_seed, handle_request, handle_chat_completions,
}

differs : (a b : String) → a ≢ b → str_eq a b ≡ false
differs a b h = ground (arith, eq_iff a b)

module _ {T S W : Type 0} (sv : Services T S W) (parse_float parse_int : String → Option ℤ)
    (show_unsupported : String → String) where
  -- The server is as it was, there is no trace, and the answer has the status 500.
  abbrev pub TurnedAway : Server T S W → Server T S W × Option (Job T S W) × Reply → Type 0
  TurnedAway server (server', job, reply) =
      (server' ≡ server) × (job ≡ none) × ((r : Response) × (reply ≡ answers r) × (r.status ≡ 500))

  -- A request is handled if it is a POST of a supported version whose body can be decoded. Any other
  -- is turned away: nothing of the server changes, and the answer has the status 500, whatever the
  -- status that the handler asks for.
  pub handle_chat_completions_lem :
      (r : HttpRequest) (ids : Ids) (server : Server T S W)
      → let h = parse_sentoris_headers parse_float parse_int r.get_header in
        let p = handle_chat_completions sv parse_float parse_int show_unsupported r ids server in
        ((req : ChatRequest)
          → r.method ≡ "POST"
          → is_version_supported h ≡ true
          → r.body ≡ ok req
          → p ≡ (
            (handle_request sv h (override_seed h req) ids server).0.server,
            some (handle_request sv h (override_seed h req) ids server).0,
            (handle_request sv h (override_seed h req) ids server).1,
          ))
        × ((r.method ≢ "POST") → TurnedAway server p)
        × (r.method ≡ "POST" → is_version_supported h ≡ false → TurnedAway server p)
        × ((e : String)
            → r.method ≡ "POST"
            → is_version_supported h ≡ true
            → r.body ≡ err e
            → TurnedAway server p)
  unfolding handle_chat_completions handle_error handle_error_with_message handle_sentoris_error
      as_sentoris_error new_sentoris_error wrap_error http_status_code status_of
  handle_chat_completions_lem r ids server = (
    λ req post version body. rw (post, version, body) refl,
    λ other_method. rw (differs r.method "POST" other_method) (refl, refl, (_, refl, refl)),
    λ post version. rw (post, version) (refl, refl, (_, refl, refl)),
    λ e post version body. rw (post, version, body) (refl, refl, (_, refl, refl)),
  )

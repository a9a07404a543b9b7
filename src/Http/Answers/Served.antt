-- ===== src/Http/Answers/Served.antt =====
-- network/http_net/server.go: what every answered request has in common, whichever route it takes.
use yaice.Base.{ℕ, ◌-◌, ◌<◌, ◌^◌, ◌≡◌, refl, ◌∙◌, List, [], ◌∷◌, Option, none, some, inl}
use yaice.Base.Tests.{if_cases}
use yaice.Base.Int.{ℤ, pos, ◌+ℤ◌, int32}
use yaice.Config.{HttpConfig}
use yaice.Http.{HttpServer, Route, health_route, default_route, pprof_route, custom}
use yaice.Http.Cors.{
  IsFaithful, last_status, wrapper_call-IsFaithful, wrapper_calls-IsFaithful,
  apply_middleware-active_conns,
}
use yaice.Http.Middleware.{
  WriterCall, write_header, write, new_wrapper, Request, Exchange, Handler, cors_middleware,
  add_headers, connection_counter_middleware, logging_middleware, apply_middleware, same_text,
  options,
}
use yaice.Http.Answers.{
  set_json, json_ok, health_handler, default_handler, write_json, Step, calls, answers_json,
  HandlerFunc, run_step, run_steps, context_of, adapt_handler, answer_of, serve_request,
}
use yaice.Utils.Tool.{Text}

-- A handler that works on the writer as it should and leaves the count of requests alone.
record IsPolite (h : Handler) : Type 0 where
  writes : (r : Request) (x : Exchange) → IsFaithful x.writer → IsFaithful (h r x).writer
  counts : (r : Request) (x : Exchange) → (h r x).active_conns ≡ x.active_conns

-- What is left of a request: the writer behind the wrapper got a header before any bytes, the status in the
-- log is that of the last header it got, and the count of requests is what it was.
pub record IsServed (x : Exchange) (served : Exchange × ℤ) : Type 0 where
  pub faithful : IsFaithful served.0.writer
  pub logged : served.1 ≡ last_status (pos 0) served.0.writer.passed_on
  pub counted : served.0.active_conns ≡ x.active_conns

json_ok-IsFaithful :
    (body : Text) (x : Exchange) → IsFaithful x.writer → IsFaithful (json_ok body x).writer
unfolding json_ok set_json
json_ok-IsFaithful body x h =
    wrapper_call-IsFaithful (write body) _
      (wrapper_call-IsFaithful (write_header (pos 200)) x.writer h)

run_step-IsFaithful :
    (s : Step) (x : Exchange) → IsFaithful x.writer → IsFaithful (run_step s x).writer
unfolding run_step write_json set_json
run_step-IsFaithful (calls c) x h = wrapper_call-IsFaithful c x.writer h
run_step-IsFaithful (answers_json status none) x h =
    wrapper_call-IsFaithful (write_header status) x.writer h
run_step-IsFaithful (answers_json status (some bytes)) x h =
    wrapper_call-IsFaithful (write bytes) _
      (wrapper_call-IsFaithful (write_header status) x.writer h)

run_step-active_conns : (s : Step) (x : Exchange) → (run_step s x).active_conns ≡ x.active_conns
unfolding run_step write_json set_json
run_step-active_conns (calls c) x = refl
run_step-active_conns (answers_json status none) x = refl
run_step-active_conns (answers_json status (some bytes)) x = refl

run_steps-IsFaithful :
    (steps : List Step) (x : Exchange) → IsFaithful x.writer → IsFaithful (run_steps steps x).writer
unfolding run_steps
run_steps-IsFaithful [] x h = h
run_steps-IsFaithful (s ∷ steps) x h =
    run_steps-IsFaithful steps (run_step s x) (run_step-IsFaithful s x h)

run_steps-active_conns :
    (steps : List Step) (x : Exchange) → (run_steps steps x).active_conns ≡ x.active_conns
unfolding run_steps
run_steps-active_conns [] x = refl
run_steps-active_conns (s ∷ steps) x =
    run_steps-active_conns steps (run_step s x) ∙ run_step-active_conns s x

cors_middleware-IsPolite :
    (origins : List Text) (h : Handler) → IsPolite h → IsPolite (cors_middleware origins h)
unfolding cors_middleware add_headers
cors_middleware-IsPolite origins h polite = record {
  writes = λ r x f.
      if_cases (λ (y : Exchange). IsFaithful y.writer) (same_text r.method options) _ _
        (λ e. wrapper_call-IsFaithful (write_header (pos 204)) x.writer f)
        (λ e. polite.writes r _ f);
  counts = λ r x.
      if_cases (λ (y : Exchange). y.active_conns ≡ x.active_conns) (same_text r.method options) _ _
        (λ e. refl) (λ e. polite.counts r _);
}

new_wrapper-IsFaithful : IsFaithful new_wrapper
new_wrapper-IsFaithful = record { status = refl; begins = tt; nonempty = inl refl }

apply_middleware-IsServed :
    (config : HttpConfig) (h : Handler) (r : Request) (x : Exchange) (n : ℕ)
    → x.active_conns ≡ pos n
    → n < 2 ^ 31 - 1
    → IsPolite h
    → IsServed x (apply_middleware config h r x)
unfolding apply_middleware logging_middleware connection_counter_middleware
apply_middleware-IsServed config h r x n e small polite =
    let seen = record x { active_conns = int32 (x.active_conns +ℤ pos 1); writer = new_wrapper } in
    let kept =
      if_cases (λ (f : Handler). IsFaithful (f r seen).writer) config.enable_cors _ _
        (λ on.
          (cors_middleware-IsPolite config.cors_origins h polite).writes r seen
            new_wrapper-IsFaithful)
        (λ off. polite.writes r seen new_wrapper-IsFaithful) in
    record {
      faithful = kept;
      logged = kept.status;
      counted = apply_middleware-active_conns config h r x n e small polite.counts;
    }

module _ (pages : Text → Request → List WriterCall) (now : ℤ) (printed : Text)
    (parent : Option ℤ) where
  answer_of-IsPolite :
      (s : HttpServer HandlerFunc) (route : Route HandlerFunc)
      → IsPolite (answer_of pages now printed parent s route)
  unfolding answer_of health_handler default_handler adapt_handler json_ok set_json
  answer_of-IsPolite s health_route = record {
    writes = λ r x h. json_ok-IsFaithful _ x h;
    counts = λ r x. refl;
  }
  answer_of-IsPolite s default_route = record {
    writes = λ r x h. json_ok-IsFaithful _ x h;
    counts = λ r x. refl;
  }
  answer_of-IsPolite s (pprof_route page) = record {
    writes = λ r x h. wrapper_calls-IsFaithful (pages page r) x.writer h;
    counts = λ r x. refl;
  }
  answer_of-IsPolite s (custom handler) = record {
    writes = λ r x h.
        run_steps-IsFaithful (handler (context_of s.config.write_timeout parent now r)) x h;
    counts =
        λ r x. run_steps-active_conns (handler (context_of s.config.write_timeout parent now r)) x;
  }

  -- Whichever route a request takes and whatever the handler of the application does to its response, the
  -- writer gets a header before any bytes, the status in the log is that of the last header that it
  -- gets, 0 where it gets none, and the count of requests comes back to what it was, below 2^31 - 1.
  pub serve_request-IsServed :
      (s : HttpServer HandlerFunc) (route : Route HandlerFunc) (r : Request) (x : Exchange) (n : ℕ)
      → x.active_conns ≡ pos n
      → n < 2 ^ 31 - 1
      → IsServed x (serve_request pages now printed parent s route r x)
  unfolding serve_request
  serve_request-IsServed s route r x n e small =
      apply_middleware-IsServed s.config (answer_of pages now printed parent s route) r x n e small
        (answer_of-IsPolite s route)

-- ===== src/Http/Answers.antt =====
-- network/http_net/server.go: the built-in answers, the answers of the application's handlers and the way
-- of a request from the middleware to them. The time, the pages of pprof and the bytes that the JSON
-- encoder makes are parameters.
pub mod Served
pub mod Builtin
use yaice.Base.{ℕ, ◌+◌, ◌*◌, Bool, true, false, List, [], ◌∷◌, ◌++◌, Option, none, some}
use yaice.Base.Tests.{if◌then◌else◌}
use yaice.Base.Int.{ℤ, pos, negsuc, ◌+ℤ◌, ltb_ℤ, int64}
use yaice.Http.{HttpServer, Route, health_route, default_route, pprof_route, custom}
use yaice.Http.Middleware.{
  WriterCall, write_header, write, ResponseWriterWrapper, wrapper_call, wrapper_calls, Request,
  Header, content_type_json, Exchange, Handler, apply_middleware,
}
use yaice.Utils.Tool.{Text}

-- "{\"status\":\"ok\",\"timestamp\":\"", "{\"message\": \"YAICE HTTP Server\", \"timestamp\": \"" and "\"}".
abbrev pub health_head : Text
health_head =
    123 ∷ 34 ∷ 115 ∷ 116 ∷ 97 ∷ 116 ∷ 117 ∷ 115 ∷ 34 ∷ 58 ∷ 34 ∷ 111 ∷ 107 ∷ 34 ∷ 44 ∷ 34 ∷ 116
    ∷ 105 ∷ 109 ∷ 101 ∷ 115 ∷ 116 ∷ 97 ∷ 109 ∷ 112 ∷ 34 ∷ 58 ∷ 34 ∷ []

abbrev pub default_head : Text
default_head =
    123 ∷ 34 ∷ 109 ∷ 101 ∷ 115 ∷ 115 ∷ 97 ∷ 103 ∷ 101 ∷ 34 ∷ 58 ∷ 32 ∷ 34 ∷ 89 ∷ 65 ∷ 73 ∷ 67 ∷ 69
    ∷ 32 ∷ 72 ∷ 84 ∷ 84 ∷ 80 ∷ 32 ∷ 83 ∷ 101 ∷ 114 ∷ 118 ∷ 101 ∷ 114 ∷ 34 ∷ 44 ∷ 32 ∷ 34 ∷ 116 ∷ 105
    ∷ 109 ∷ 101 ∷ 115 ∷ 116 ∷ 97 ∷ 109 ∷ 112 ∷ 34 ∷ 58 ∷ 32 ∷ 34 ∷ []

abbrev pub body_end : Text
body_end = 34 ∷ 125 ∷ []

abbrev is_content_type : Header → Bool
is_content_type content_type_json = true
is_content_type h = false

-- `Header().Set("Content-Type", "application/json")`
unfoldable pub set_content_type : List Header → List Header
set_content_type [] = content_type_json ∷ []
set_content_type (h ∷ headers) =
    let rest = set_content_type headers in if is_content_type h then h ∷ headers else h ∷ rest

unfoldable pub set_json : Exchange → Exchange
unfolding set_content_type
set_json x = record x { headers = set_content_type x.headers }

-- The two default answers, which only differ in their body.
unfoldable pub json_ok : Text → Exchange → Exchange
unfolding set_json wrapper_call
json_ok body x =
    let y = set_json x in
    record y { writer = wrapper_call (write body) (wrapper_call (write_header (pos 200)) y.writer) }

unfoldable pub health_handler : Text → Handler
unfolding json_ok
health_handler now r x = json_ok (health_head ++ (now ++ body_end)) x

unfoldable pub default_handler : Text → Handler
unfolding json_ok
default_handler now r x = json_ok (default_head ++ (now ++ body_end)) x

-- `WriteJSON`, with what the encoder makes of the data, or its error, and whether it returns no error.
unfoldable pub write_json : ℤ → Option (List ℕ) → Exchange → Exchange × Bool
unfolding set_json wrapper_call
write_json status encoded x =
    let y = set_json x in
    let begun = record y { writer = wrapper_call (write_header status) y.writer } in
    elim encoded [
      | none ↦ (begun, false)
      | some bytes ↦ (record begun { writer = wrapper_call (write bytes) begun.writer }, true)
    ]

-- `isWritten`, on a writer that is a wrapper or not.
unfoldable pub is_written : Option ResponseWriterWrapper → Bool
is_written none = false
is_written (some w) = w.written

-- The deadline is that of the request's context, in nanoseconds.
pub record Context : Type 0 where
  pub request : Request
  pub deadline : ℤ
  pub params : List (Text × Text)

-- What a handler of the application does to its response: a call on the writer or a `WriteJSON`.
pub data Step : Type 0 where
  calls : WriterCall → Step
  answers_json : ℤ → Option (List ℕ) → Step

abbrev pub HandlerFunc : Type 0
HandlerFunc = Context → List Step

unfoldable pub run_step : Step → Exchange → Exchange
unfolding write_json
run_step (calls c) x = record x { writer = wrapper_call c x.writer }
run_step (answers_json status encoded) x = (write_json status encoded x).0

unfoldable pub run_steps : List Step → Exchange → Exchange
unfolding run_step
run_steps [] x = x
run_steps (s ∷ steps) x = run_steps steps (run_step s x)

-- `time.Duration(seconds) * time.Second`
unfoldable pub nanoseconds : ℤ → ℤ
nanoseconds (pos n) = int64 (pos (1000000000 * n))
nanoseconds (negsuc n) = int64 (negsuc (1000000000 * n + 999999999))

-- `context.WithTimeout`: the earlier one of the deadline of the parent and the new one.
unfoldable pub with_timeout : Option ℤ → ℤ → ℤ → ℤ
with_timeout none now duration = now +ℤ duration
with_timeout (some parent) now duration =
    if ltb_ℤ parent (now +ℤ duration) then parent else now +ℤ duration

-- The context that `adaptHandler` makes, with the write time-out of the configuration, the deadline of the
-- request and the time.
unfoldable pub context_of : ℤ → Option ℤ → ℤ → Request → Context
unfolding nanoseconds with_timeout
context_of write_timeout parent now r = record {
  request = r;
  deadline = with_timeout parent now (nanoseconds write_timeout);
  params = [];
}

unfoldable pub adapt_handler : ℤ → Option ℤ → ℤ → HandlerFunc → Handler
unfolding run_steps context_of
adapt_handler write_timeout parent now handler r x =
    run_steps (handler (context_of write_timeout parent now r)) x

module _ (pages : Text → Request → List WriterCall) (now : ℤ) (printed : Text)
    (parent : Option ℤ) where
  -- The handlers that `setupRoutes` registers.
  unfoldable pub answer_of : HttpServer HandlerFunc → Route HandlerFunc → Handler
  unfolding health_handler default_handler adapt_handler
  answer_of s health_route = health_handler printed
  answer_of s default_route = default_handler printed
  answer_of s (pprof_route page) =
      λ r x. record x { writer = wrapper_calls (pages page r) x.writer }
  answer_of s (custom handler) = adapt_handler s.config.write_timeout parent now handler

  -- The answer to a request for which the multiplexer chooses a route, with the status that is logged.
  unfoldable pub serve_request :
      HttpServer HandlerFunc → Route HandlerFunc → Request → Exchange → Exchange × ℤ
  unfolding answer_of
  serve_request s route = apply_middleware s.config (answer_of s route)

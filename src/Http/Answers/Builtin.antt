-- ===== src/Http/Answers/Builtin.antt =====
-- network/http_net/server.go: the answers of the two handlers that every server has, and the time that a
-- handler of the application has left.
use mathlib.Core.List.{Mem, mem-cons_self, mem-cons_of_mem}
use yaice.Base.{true, ◌≡◌, ◌≢◌, inl, inr, refl, ap, List, [], ◌∷◌, ◌++◌, Option, none, some, arith}
use yaice.Base.Tests.{if_cases}
use yaice.Base.Int.{ℤ, pos, ◌+ℤ◌, ◌≤ℤ◌, int32, int64}
use yaice.Config.{HttpConfig}
use yaice.Http.{HttpServer, Route, health_route, default_route}
use yaice.Http.Cors.{same_text_iff}
use yaice.Http.Middleware.{
  WriterCall, write_header, write, ResponseWriterWrapper, wrapper_call, new_wrapper, Request,
  Exchange, Handler, Header, content_type_json, allow_origin, allow_methods, allow_headers,
  allow_credentials, expose_headers, cors_middleware, add_headers, connection_counter_middleware,
  logging_middleware, apply_middleware, same_text, options,
}
use yaice.Http.Answers.{
  set_content_type, set_json, json_ok, health_head, default_head, body_end, health_handler,
  default_handler, HandlerFunc, with_timeout, nanoseconds, context_of, answer_of, serve_request,
}
use yaice.Utils.Tool.{Text}

eq-of_same_text : (s t : Text) → same_text s t ≡ true → s ≡ t
eq-of_same_text s t e = elim (same_text_iff s t) [
  | inl (_, same) ↦ same
  | inr (off, _) ↦ absurd (ground arith)
]

-- With a write time-out of 0 seconds, which a configuration may leave out, the deadline of the context is
-- not later than the time when the handler is called.
pub context_of-zero :
    (parent : Option ℤ) (now : ℤ) (r : Request) → (context_of (pos 0) parent now r).deadline ≤ℤ now
unfolding context_of with_timeout nanoseconds int64 ◌+ℤ◌
context_of-zero none now r = ground arith
context_of-zero (some parent) now r = ground arith

set_content_type-mem : (headers : List Header) → Mem content_type_json (set_content_type headers)
unfolding set_content_type
set_content_type-mem [] = mem-cons_self
set_content_type-mem (content_type_json ∷ headers) = mem-cons_self
set_content_type-mem (allow_origin o ∷ headers) = mem-cons_of_mem _ (set_content_type-mem headers)
set_content_type-mem (allow_methods ∷ headers) = mem-cons_of_mem _ (set_content_type-mem headers)
set_content_type-mem (allow_headers ∷ headers) = mem-cons_of_mem _ (set_content_type-mem headers)
set_content_type-mem (allow_credentials ∷ headers) =
    mem-cons_of_mem _ (set_content_type-mem headers)
set_content_type-mem (expose_headers ∷ headers) = mem-cons_of_mem _ (set_content_type-mem headers)

-- The answer of a built-in handler with a body: the status 200, one body and the type of JSON.
pub record IsOk (body : Text) (x : Exchange) : Type 0 where
  pub passed_on : x.writer.passed_on ≡ write_header (pos 200) ∷ write body ∷ []
  pub status : x.writer.status_code ≡ pos 200
  pub typed : Mem content_type_json x.headers

json_ok-IsOk : (body : Text) (x : Exchange) → x.writer ≡ new_wrapper → IsOk body (json_ok body x)
unfolding json_ok set_json wrapper_call
json_ok-IsOk body x new = record {
  passed_on =
      ap
        (λ (w : ResponseWriterWrapper).
          (wrapper_call (write body) (wrapper_call (write_header (pos 200)) w)).passed_on)
        new;
  status = refl;
  typed = set_content_type-mem x.headers;
}

apply_middleware-IsOk :
    (config : HttpConfig) (body : Text) (r : Request) (x : Exchange)
    → r.method ≢ options
    → let served = apply_middleware config (λ r y. json_ok body y) r x in
      IsOk body served.0 × (served.1 ≡ pos 200)
unfolding apply_middleware logging_middleware connection_counter_middleware cors_middleware
    add_headers
apply_middleware-IsOk config body r x other =
    let seen = record x { active_conns = int32 (x.active_conns +ℤ pos 1); writer = new_wrapper } in
    let ok =
      if_cases (λ (f : Handler). IsOk body (f r seen)) config.enable_cors _ _
        (λ on.
          if_cases (λ (y : Exchange). IsOk body y) (same_text r.method options) _ _
            (λ e. absurd (other (eq-of_same_text r.method options e)))
            (λ e. json_ok-IsOk body _ refl))
        (λ off. json_ok-IsOk body seen refl) in
    (record { passed_on = ok.passed_on; status = ok.status; typed = ok.typed }, ok.status)

-- Of the routes that every server has, the health page and the default page, with the texts around the
-- time that is printed.
pub data IsBuiltin (printed : Text) : Route HandlerFunc → Text → Type 0 where
  health_page : IsBuiltin printed health_route (health_head ++ (printed ++ body_end))
  default_page : IsBuiltin printed default_route (default_head ++ (printed ++ body_end))

module _ (pages : Text → Request → List WriterCall) (now : ℤ) (printed : Text)
    (parent : Option ℤ) where
  -- A request for the health page or the default page, which is not a preflight request, is answered with
  -- the status 200, once and before the one body, and with the content type of JSON; the log has the
  -- same status.
  pub serve_request-IsOk :
      (s : HttpServer HandlerFunc) (route : Route HandlerFunc) (body : Text) (r : Request)
      (x : Exchange)
      → IsBuiltin printed route body
      → r.method ≢ options
      → IsOk body (serve_request pages now printed parent s route r x).0
        × ((serve_request pages now printed parent s route r x).1 ≡ pos 200)
  unfolding serve_request answer_of health_handler default_handler
  serve_request-IsOk s _ _ r x health_page other =
      apply_middleware-IsOk s.config (health_head ++ (printed ++ body_end)) r x other
  serve_request-IsOk s _ _ r x default_page other =
      apply_middleware-IsOk s.config (default_head ++ (printed ++ body_end)) r x other

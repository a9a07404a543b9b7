-- ===== src/Http/Cors.antt =====
-- network/http_net/server.go: which origins are allowed, what a preflight request meets, and what the
-- wrapper of the response writer keeps.
use mathlib.Core.List.{Mem, mem-cons_self, mem-cons_of_mem}
use yaice.Base.{
  ℕ, ◌-◌, ◌<◌, ◌^◌, ◌≡◌, ◌≢◌, refl, sym, ap, ◌∙◌, ◌⊎◌, Bool, true, false, List, [], ◌∷◌, ◌++◌,
  Option, none, some, arith, inl, inr,
}
use yaice.Base.Tests.{if◌then◌else◌, Bool-cases, if_cases}
use yaice.Base.Lists.{All}
use yaice.Base.Int.{ℤ, pos, negsuc, ◌+ℤ◌, int32}
use yaice.Config.{HttpConfig}
use yaice.Http.Middleware.{
  WriterCall, write_header, write, ResponseWriterWrapper, wrapper_call, wrapper_calls, new_wrapper,
  Request, Exchange, Handler, options, star, same_text, allowed_origin, cors_headers, origin_for,
  add_headers, cors_middleware, connection_counter_middleware, logging_middleware, apply_middleware,
}
use yaice.Utils.Tool.{Text, text_discrete}

pub same_text_iff :
    (s t : Text) → ((same_text s t ≡ true) × (s ≡ t)) ⊎ ((same_text s t ≡ false) × (s ≢ t))
same_text_iff s t =
    elim (text_discrete s t)
      as (λ d.
        (elim d [ yes _ ↦ true | no _ ↦ false ] ≡ true × (s ≡ t))
        ⊎ ((elim d [ yes _ ↦ true | no _ ↦ false ] ≡ false) × (s ≢ t))) [
          | yes e ↦ inl (refl, e)
          | no n ↦ inr (refl, n)
        ]

-- What the list of allowed origins says of a request's origin.
pub data Judged (origins : List Text) (origin : Text) : Option Text → Type 0 where
  allowed : (o : Text) → Mem o origins → (o ≡ star) ⊎ (o ≡ origin) → Judged origins origin (some o)
  refused : All (λ o. (o ≢ star) × (o ≢ origin)) origins → Judged origins origin none

same_options : same_text options options ≡ true
same_options = elim (same_text_iff options options) [
  | inl (e, _) ↦ e
  | inr (_, n) ↦ absurd (n refl)
]

later :
    (o : Text) (origins : List Text) (origin : Text) (a : Option Text)
    → (o ≢ star) × (o ≢ origin)
    → Judged origins origin a
    → Judged (o ∷ origins) origin a
later o origins origin (some _) n (allowed a at e) = allowed a (mem-cons_of_mem o at) e
later o origins origin none n (refused all) = refused (n, all)

-- The origin that is allowed is a member of the list, a star or the request's own, and where none is
-- allowed the list has neither.
pub allowed_origin-Judged :
    (origins : List Text) (origin : Text) → Judged origins origin (allowed_origin origins origin)
unfolding allowed_origin
allowed_origin-Judged [] origin = refused tt
allowed_origin-Judged (o ∷ origins) origin = elim (same_text_iff o star) [
  | inl (e, at) ↦ rw e (allowed o mem-cons_self (inl at))
  | inr (e, n) ↦ elim (same_text_iff o origin) [
    | inl (e2, at) ↦ rw (e, e2) (allowed o mem-cons_self (inr at))
    | inr (e2, n2) ↦
        rw (e, e2) (later o origins origin _ (n, n2) (allowed_origin-Judged origins origin))
  ]
]

cors_middleware-options :
    (origins : List Text) (next : Handler) (r : Request) (x : Exchange)
    → r.method ≡ options
    → cors_middleware origins next r x
      ≡ record (add_headers (cors_headers (origin_for origins r)) x) {
        writer = wrapper_call (write_header (pos 204)) x.writer;
      }
unfolding cors_middleware add_headers
cors_middleware-options origins next r x e = rw (e, same_options) refl

-- With CORS enabled, a preflight request is answered with the status 204, which is all that the writer gets and
-- what the log has, and with the headers of its origin; the handler behind is not asked: the answer is
-- the same for any two handlers.
pub apply_middleware-options :
    (config : HttpConfig) (handler other : Handler) (r : Request) (x : Exchange)
    → config.enable_cors ≡ true
    → r.method ≡ options
    → ((apply_middleware config handler r x).1 ≡ pos 204)
      × ((apply_middleware config handler r x).0.writer.passed_on ≡ write_header (pos 204) ∷ [])
      × ((apply_middleware config handler r x).0.headers
          ≡ x.headers ++ cors_headers (origin_for config.cors_origins r))
      × (apply_middleware config handler r x ≡ apply_middleware config other r x)
unfolding apply_middleware logging_middleware connection_counter_middleware cors_middleware
    add_headers wrapper_call
apply_middleware-options config handler other r x on preflight =
    let done = served handler in
    (
      ap (λ a. a.1) done,
      ap (λ a. a.0.writer.passed_on) done,
      ap (λ a. a.0.headers) done,
      done ∙ sym (served other),
    )
  where
    down : Exchange → Exchange × ℤ
    down y = (record y { active_conns = int32 (y.active_conns +ℤ negsuc 0) }, y.writer.status_code)

    seen : Exchange
    seen = record x { active_conns = int32 (x.active_conns +ℤ pos 1); writer = new_wrapper }

    answer : Exchange
    answer = record (add_headers (cors_headers (origin_for config.cors_origins r)) seen) {
      writer = wrapper_call (write_header (pos 204)) new_wrapper;
    }

    served : (h : Handler) → apply_middleware config h r x ≡ down answer
    served h =
        ap (λ (b : Bool). down ((if b then cors_middleware config.cors_origins h else h) r seen)) on
        ∙ ap down (cors_middleware-options config.cors_origins h r seen preflight)

cors-active_conns :
    (origins : List Text) (next : Handler) (r : Request) (x : Exchange)
    → ((q : Request) (y : Exchange) → (next q y).active_conns ≡ y.active_conns)
    → (cors_middleware origins next r x).active_conns ≡ x.active_conns
unfolding cors_middleware add_headers
cors-active_conns origins next r x keeps =
    if_cases (λ (y : Exchange). y.active_conns ≡ x.active_conns) (same_text r.method options) _ _
      (λ e. refl) (λ e. keeps r _)

up_down : (a : ℤ) (n : ℕ) → a ≡ pos n → n < 2 ^ 31 - 1 → int32 (int32 (a +ℤ pos 1) +ℤ negsuc 0) ≡ a
unfolding int32 ◌+ℤ◌
up_down a n e small = ground arith

-- A handler that leaves the count of requests alone is served with the count one higher, and the count is
-- after it what it was before.
pub apply_middleware-active_conns :
    (config : HttpConfig) (handler : Handler) (r : Request) (x : Exchange) (n : ℕ)
    → x.active_conns ≡ pos n
    → n < 2 ^ 31 - 1
    → ((q : Request) (y : Exchange) → (handler q y).active_conns ≡ y.active_conns)
    → (apply_middleware config handler r x).0.active_conns ≡ x.active_conns
unfolding apply_middleware logging_middleware connection_counter_middleware cors_middleware
    add_headers wrapper_call
apply_middleware-active_conns config handler r x n e small keeps =
    let seen = record x { active_conns = int32 (x.active_conns +ℤ pos 1); writer = new_wrapper } in
    let same =
      if_cases (λ (f : Handler). (f r seen).active_conns ≡ seen.active_conns) config.enable_cors _ _
        (λ on. cors-active_conns config.cors_origins handler r seen keeps) (λ off. keeps r seen) in
    ap (λ a. int32 (a +ℤ negsuc 0)) same ∙ up_down x.active_conns n e small

-- The status of the last header among the calls, or the given one.
abbrev pub last_status : ℤ → List WriterCall → ℤ
last_status status [] = status
last_status status (write_header s ∷ calls) = last_status s calls
last_status status (write bytes ∷ calls) = last_status status calls

-- The first call, if there is one, gives the header.
abbrev pub BeginsWithHeader : List WriterCall → Type 0
BeginsWithHeader [] = Unit
BeginsWithHeader (write_header s ∷ calls) = Unit
BeginsWithHeader (write bytes ∷ calls) = ⊥

pub record IsFaithful (w : ResponseWriterWrapper) : Type 0 where
  pub status : w.status_code ≡ last_status (pos 0) w.passed_on
  pub begins : BeginsWithHeader w.passed_on
  pub nonempty : (w.written ≡ false) ⊎ (w.passed_on ≢ [])

last_status-append :
    (status : ℤ) (calls later : List WriterCall)
    → last_status status (calls ++ later) ≡ last_status (last_status status calls) later
last_status-append status [] later = refl
last_status-append status (write_header s ∷ calls) later = last_status-append s calls later
last_status-append status (write bytes ∷ calls) later = last_status-append status calls later

append_ne :
    (calls : List WriterCall) (c : WriterCall) (later : List WriterCall) → calls ++ (c ∷ later) ≢ []
append_ne [] c later e = ground arith
append_ne (d ∷ calls) c later e = ground arith

begins_append :
    (calls later : List WriterCall)
    → BeginsWithHeader calls
    → (calls ≢ []) ⊎ BeginsWithHeader later
    → BeginsWithHeader (calls ++ later)
begins_append [] later h (inl n) = absurd (n refl)
begins_append [] later h (inr b) = b
begins_append (write_header s ∷ calls) later h b = tt
begins_append (write bytes ∷ calls) later h b = absurd h

pub wrapper_call-IsFaithful :
    (c : WriterCall) (w : ResponseWriterWrapper) → IsFaithful w → IsFaithful (wrapper_call c w)
unfolding wrapper_call
wrapper_call-IsFaithful (write_header s) w h = record {
  status = sym (last_status-append (pos 0) w.passed_on (write_header s ∷ []));
  begins = begins_append w.passed_on (write_header s ∷ []) h.begins (inr tt);
  nonempty = inr (append_ne w.passed_on (write_header s) []);
}
wrapper_call-IsFaithful (write bytes) w h = elim (Bool-cases w.written) [
  | inl on ↦ rw on (record {
    status = h.status ∙ sym (last_status-append (pos 0) w.passed_on (write bytes ∷ []));
    begins = begins_append w.passed_on (write bytes ∷ []) h.begins (inl (begun on));
    nonempty = inr (append_ne w.passed_on (write bytes) []);
  })
  | inr off ↦ rw off (record {
    status =
        sym (last_status-append (pos 0) w.passed_on (write_header (pos 200) ∷ write bytes ∷ []));
    begins =
        begins_append w.passed_on (write_header (pos 200) ∷ write bytes ∷ []) h.begins (inr tt);
    nonempty = inr (append_ne w.passed_on (write_header (pos 200)) (write bytes ∷ []));
  })
]
  where
    begun : w.written ≡ true → w.passed_on ≢ []
    begun on = elim h.nonempty [ inl off ↦ absurd (ground arith) | inr n ↦ n ]

-- Whatever a handler calls on the wrapper, the writer behind gets a header before any bytes, and the
-- status that is kept is that of the last header it gets, or 0 where it gets none.
pub wrapper_calls-IsFaithful :
    (calls : List WriterCall) (w : ResponseWriterWrapper)
    → IsFaithful w
    → IsFaithful (wrapper_calls calls w)
unfolding wrapper_calls
wrapper_calls-IsFaithful [] w h = h
wrapper_calls-IsFaithful (c ∷ calls) w h =
    wrapper_calls-IsFaithful calls (wrapper_call c w) (wrapper_call-IsFaithful c w h)

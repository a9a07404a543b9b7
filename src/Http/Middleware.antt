-- ===== src/Http/Middleware.antt =====
-- network/http_net/server.go: what stands around the handlers. A handler is a function on an exchange; the
-- response writer behind the wrapper is known by the calls that it gets.
use yaice.Base.{ℕ, Bool, true, false, ◌||◌, List, [], ◌∷◌, ◌++◌, Option, none, some}
use yaice.Base.Tests.{if◌then◌else◌}
use yaice.Base.Int.{ℤ, pos, negsuc, ◌+ℤ◌, int32}
use yaice.Config.{HttpConfig}
use yaice.Http.{is_empty}
use yaice.Utils.Tool.{Text, text_discrete}

-- A call on the response writer.
pub data WriterCall : Type 0 where
  write_header : ℤ → WriterCall
  write : List ℕ → WriterCall

pub record ResponseWriterWrapper : Type 0 where
  pub passed_on : List WriterCall
  pub status_code : ℤ
  pub written : Bool

-- The two methods of the wrapper.
unfoldable pub wrapper_call : WriterCall → ResponseWriterWrapper → ResponseWriterWrapper
wrapper_call (write_header status) w = record {
  passed_on = w.passed_on ++ (write_header status ∷ []);
  status_code = status;
  written = true;
}
wrapper_call (write bytes) w =
    if w.written then record w { passed_on = w.passed_on ++ (write bytes ∷ []) } else record {
      passed_on = w.passed_on ++ (write_header (pos 200) ∷ write bytes ∷ []);
      status_code = pos 200;
      written = true;
    }

unfoldable pub wrapper_calls : List WriterCall → ResponseWriterWrapper → ResponseWriterWrapper
unfolding wrapper_call
wrapper_calls [] w = w
wrapper_calls (c ∷ calls) w = wrapper_calls calls (wrapper_call c w)

abbrev pub new_wrapper : ResponseWriterWrapper
new_wrapper = record { passed_on = []; status_code = pos 0; written = false }

pub record Request : Type 0 where
  pub method : Text
  pub origin : Text

-- The headers that the code sets; those with one value stand for it too.
pub data Header : Type 0 where
  allow_origin : Text → Header
  allow_methods allow_headers allow_credentials expose_headers content_type_json : Header

-- The headers of the response as they are set, its writer, and the server's count of requests.
pub record Exchange : Type 0 where
  pub active_conns : ℤ
  pub headers : List Header
  pub writer : ResponseWriterWrapper

abbrev pub Handler : Type 0
Handler = Request → Exchange → Exchange

-- "OPTIONS" and "*".
abbrev pub options : Text
options = 79 ∷ 80 ∷ 84 ∷ 73 ∷ 79 ∷ 78 ∷ 83 ∷ []

abbrev pub star : Text
star = 42 ∷ []

abbrev pub same_text : Text → Text → Bool
same_text s t = elim (text_discrete s t) [ yes _ ↦ true | no _ ↦ false ]

-- The loop over the allowed origins: the first one that fits.
unfoldable pub allowed_origin : List Text → Text → Option Text
allowed_origin [] origin = none
allowed_origin (o ∷ origins) origin =
    if same_text o star || same_text o origin then some o else allowed_origin origins origin

unfoldable pub add_headers : List Header → Exchange → Exchange
add_headers headers x = record x { headers = x.headers ++ headers }

unfoldable pub cors_headers : Option Text → List Header
cors_headers none = []
cors_headers (some o) =
    allow_origin o ∷ allow_methods ∷ allow_headers ∷ allow_credentials ∷ expose_headers ∷ []

-- The origin that is allowed for a request, if there is one.
unfoldable pub origin_for : List Text → Request → Option Text
unfolding allowed_origin
origin_for origins r = if is_empty r.origin then none else allowed_origin origins r.origin

unfoldable pub cors_middleware : List Text → Handler → Handler
unfolding origin_for cors_headers add_headers wrapper_call
cors_middleware origins next r x =
    let y = add_headers (cors_headers (origin_for origins r)) x in
    if same_text r.method options
    then record y { writer = wrapper_call (write_header (pos 204)) y.writer }
    else next r y

unfoldable pub connection_counter_middleware : Handler → Handler
connection_counter_middleware next r x =
    let y = next r (record x { active_conns = int32 (x.active_conns +ℤ pos 1) }) in
    record y { active_conns = int32 (y.active_conns +ℤ negsuc 0) }

-- `loggingMiddleware`: the exchange, and the status that it logs.
unfoldable pub logging_middleware : Handler → Request → Exchange → Exchange × ℤ
logging_middleware next r x =
    let y = next r (record x { writer = new_wrapper }) in (y, y.writer.status_code)

unfoldable pub apply_middleware : HttpConfig → Handler → Request → Exchange → Exchange × ℤ
unfolding cors_middleware connection_counter_middleware logging_middleware
apply_middleware config handler = logging_middleware (
    connection_counter_middleware
      (if config.enable_cors then cors_middleware config.cors_origins handler else handler))

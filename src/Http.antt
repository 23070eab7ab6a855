-- ===== src/Http.antt =====
-- What the handlers of internal/broker/broker.go and web/server.go see of net/http: a request, and the
-- response so far. The first status is sent with the headers of that moment; later headers and a
-- later status are ignored. If those headers have no content type, the first write sends the one that
-- `http.DetectContentType` finds in what is written. A handler that panics is cut off.
use spool.Prelude.{
  ℕ, String, Bool, true, false, Option, none, some, List, [], ◌∷◌, ◌++◌, Map, insert, lookup,
  if◌then◌else◌, str_eq,
}
use Prim.Native.String.{len}
use text.Mathlib.Text.{get?}

-- B is what the body holds, C is the context.
pub record Request (B C : Type 0) : Type 0 where
  pub method : String
  pub path : String
  pub body : B
  pub ctx : C

-- What has been written: a plain text, or the JSON of a value.
pub data Chunk (J : Type 0) : Type 0 where
  plain : String → Chunk J
  json : J → Chunk J

-- `status` is none as long as nothing is sent, and `sent` holds the headers that were sent. `sniffed`
-- is what was written first, if its content type is detected.
pub record Response (J : Type 0) : Type 0 where
  pub status : Option ℕ
  pub headers : Map String
  pub sent : Map String
  pub sniffed : Option (Chunk J)
  pub body : List (Chunk J)
  pub panicked : Bool

abbrev pub blank : {J : Type 0} → Response J
blank = record {
  status = none;
  headers = [];
  sent = [];
  sniffed = none;
  body = [];
  panicked = false;
}

module _ {J : Type 0} where
  abbrev pub set_header : String → String → Response J → Response J
  set_header key value w = record w { headers = insert key value w.headers }

  abbrev pub write_header : ℕ → Response J → Response J
  write_header code w = elim w.status [
    | none ↦ record w { status = some code; sent = w.headers }
    | some _ ↦ w
  ]

  -- The content type of the first write is detected if the headers that were sent have none.
  abbrev sniffs : Chunk J → Response J → Option (Chunk J)
  sniffs chunk w = elim w.body [
    | [] ↦ (elim (lookup "Content-Type" w.sent) [ none ↦ some chunk | some _ ↦ none ])
    | _ ∷ _ ↦ w.sniffed
  ]

  -- A write sends the status 200 if none was sent.
  abbrev pub write : Chunk J → Response J → Response J
  write chunk w =
      let w' = write_header 200 w in
      record w' { sniffed = sniffs chunk w'; body = w'.body ++ (chunk ∷ []) }

  -- The content type that the client gets; `detect` is `http.DetectContentType` of a chunk's bytes.
  abbrev pub content_type : (Chunk J → String) → Response J → Option String
  content_type detect w = elim (lookup "Content-Type" w.sent) [
    | none ↦ (elim w.sniffed [ none ↦ none | some chunk ↦ some (detect chunk) ])
    | some kind ↦ some kind
  ]

  -- `http.Error`
  abbrev pub http_error : String → ℕ → Response J → Response J
  http_error message code w = write (plain message) (
      write_header code (
        set_header "X-Content-Type-Options" "nosniff"
          (set_header "Content-Type" "text/plain; charset=utf-8" w)))

  -- `json.NewEncoder(w).Encode(v)`, with its error only logged; `encodes` tells whether the value
  -- has a JSON text.
  abbrev pub encode : (J → Bool) → J → Response J → Response J
  encode encodes v w = if encodes v then write (json v) w else w

  abbrev pub panic : Response J → Response J
  panic w = record w { panicked = true }

-- `path[n:]`
abbrev pub path_from : ℕ → String → Option String
path_from n path = get? path n (len path)

abbrev pub application_json : String
application_json = "application/json"

-- `withCORS` around a handler.
unfoldable pub with_cors :
    {J B C S : Type 0}
    → String
    → String
    → (Request B C → Response J → S → Response J × S)
    → Request B C
    → Response J
    → S
    → Response J × S
with_cors methods allowed next q w s =
    let w' = set_header "Access-Control-Allow-Headers" allowed (
      set_header "Access-Control-Allow-Methods" methods
        (set_header "Access-Control-Allow-Origin" "*" w)) in
    if str_eq q.method "OPTIONS" then (write_header 200 w', s) else next q w' s

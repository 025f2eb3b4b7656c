-- ===== src/Upgrade.antt =====
-- src/upgrade.rs and `handler` of src/server.rs: the answers to HTTP requests.
pub mod Switching
use gateway_proxy.Prelude.{
  ℕ, Bool, true, false, Option, none, some, List, [], ◌∷◌, ◌++◌, if◌then◌else◌, ◌>>=◌, ◌&&◌, not,
}
use gateway_proxy.Text.{Text, codes, find, starts_with, as_bytes}
use gateway_proxy.Text.Number.{format}
use gateway_proxy.Text.Words.{text_eq}
use gateway_proxy.Model.{Map, insert}

-- The value of a header is a list of bytes.
abbrev pub HeaderValue : Type 0
HeaderValue = List ℕ

-- A method by its name; the library finds a header in any case of its name.
pub record Request : Type 0 where
  pub method : Text
  pub path : Text
  pub query : Option Text
  pub headers : Text → Option HeaderValue

pub record Response : Type 0 where
  pub status : ℕ
  pub headers : Map HeaderValue
  pub body : Text

-- The libraries: the digest, the encoding, and the conversions of header values.
pub record Env : Type 0 where
  pub sha1 : List ℕ → List ℕ
  pub base64 : List ℕ → Text
  pub to_str : HeaderValue → Option Text
  pub from_str : Text → Option HeaderValue
  pub metrics : Text

-- A response, and the choice of compression of the client that is handled once the upgrade is done.
abbrev pub Answer : Type 0
Answer = Response × Option Bool

abbrev pub guid : Text
guid = codes "258EAFA5-E914-47DA-95CA-C5AB0DC85B11"

abbrev pub upgrade_name : Text
upgrade_name = codes "upgrade"

abbrev pub key_name : Text
key_name = codes "sec-websocket-key"

abbrev pub accept_name : Text
accept_name = codes "sec-websocket-accept"

-- `str::contains`.
unfoldable pub contains : Text → Text → Bool
contains pattern s = elim (find (starts_with pattern) s) [ none ↦ false | some _ ↦ true ]

unfoldable pub wants_zlib : Request → Bool
wants_zlib request = elim request.query [
  | none ↦ false
  | some q ↦ contains (codes "compress=zlib-stream") q
]

-- `Response::new(Full::default())`.
abbrev pub new_response : Response
new_response = record { status = 200; headers = []; body = [] }

abbrev pub bad_request : Answer
bad_request = (record new_response { status = 400 }, none)

-- The 101 with its headers.
unfoldable pub switched : HeaderValue → Bool → Answer
switched accept use_zlib =
    let headers = insert [] (codes "connection") (as_bytes (codes "Upgrade")) in
    let headers = insert headers upgrade_name (as_bytes (codes "websocket")) in
    let headers = insert headers accept_name accept in
    let headers = insert headers (codes "sec-websocket-version") (as_bytes (codes "13")) in
    (record new_response { status = 101; headers = headers }, some use_zlib)

module _ (env : Env) where
  unfoldable pub is_upgrade : Request → Bool
  is_upgrade request = elim (request.headers upgrade_name >>= env.to_str) [
    | none ↦ false
    | some value ↦ text_eq value (codes "websocket")
  ]

  unfoldable pub accept_key : HeaderValue → Text
  accept_key websocket_key = env.base64 (env.sha1 (websocket_key ++ as_bytes guid))

  -- `none` is the panic of `unwrap` on a key that is no header value.
  unfoldable pub switching : HeaderValue → Bool → Option Answer
  switching websocket_key use_zlib = do
    accept ← env.from_str (accept_key websocket_key)
    some (switched accept use_zlib)

  unfoldable pub server : Request → Option Answer
  server request =
      if not (is_upgrade request) then some bad_request else elim (request.headers key_name) [
        | none ↦ some bad_request
        | some websocket_key ↦ switching websocket_key (wants_zlib request)
      ]

  -- `handler` of src/server.rs.
  unfoldable pub handler : ℕ → Request → Option Answer
  handler shard_count request =
      if text_eq request.method (codes "GET") && text_eq request.path (codes "/metrics")
      then some (record new_response { body = env.metrics }, none)
      else if text_eq request.method (codes "GET") && text_eq request.path (codes "/shard-count")
      then some (record new_response { body = format shard_count }, none)
      else server request

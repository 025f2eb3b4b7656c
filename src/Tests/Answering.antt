-- ===== src/Tests/Answering.antt =====
-- src/upgrade.rs and `handler` of src/server.rs on concrete requests.
use gateway_proxy.Prelude.{
  ◌≡◌, refl, [], ◌∷◌, List, Option, map, true, false, some, none, ◌++◌, ◌⊎◌, if◌then◌else◌,
}
use gateway_proxy.Text.{Text, codes, as_bytes, utf8, find, starts_with, len_utf8}
use gateway_proxy.Text.Words.{text_eq}
use gateway_proxy.Upgrade.{
  HeaderValue, Request, Env, Answer, guid, upgrade_name, key_name, bad_request, contains,
  wants_zlib, is_upgrade, accept_key, switched, switching, server,
}
use gateway_proxy.Server.Listening.{Connection, serve_connection, run, run-ends}
use gateway_proxy.Upgrade.Switching.{Accepts, server_lem}

abbrev env : Env
env = record {
  sha1 = λ bytes. bytes;
  base64 = λ bytes. bytes;
  to_str = λ value. some value;
  from_str = λ text. some text;
  metrics = codes "metrics";
}

abbrev request : Text → Request
request path = record {
  method = codes "GET";
  path = path;
  query = some (codes "v=10&compress=zlib-stream");
  headers = λ name.
      if text_eq name upgrade_name
      then some (codes "websocket")
      else if text_eq name key_name
      then some (codes "key")
      else none;
}

server-zlib : server env (request (codes "/")) ≡ some (switched (codes "key" ++ as_bytes guid) true)
unfolding server switching is_upgrade accept_key wants_zlib contains find starts_with len_utf8
    text_eq as_bytes utf8
server-zlib = refl

server_lem_example :
    ((websocket_key accept : HeaderValue) × (answer : Answer) × ((request (codes "/")).headers
          key_name
        ≡ some websocket_key)
      × (some (websocket_key ++ as_bytes guid) ≡ some accept)
      × (is_upgrade env (request (codes "/")) ≡ true)
      × (server env (request (codes "/")) ≡ some answer)
      × Accepts env (wants_zlib (request (codes "/"))) accept answer)
    ⊎ (((is_upgrade env (request (codes "/")) ≡ false)
          ⊎ ((request (codes "/")).headers key_name ≡ none))
        × (server env (request (codes "/")) ≡ some bad_request))
server_lem_example = server_lem env (request (codes "/")) (λ websocket_key e. absurd cc)

run-ends_example :
    let accepted = some (request (codes "/") ∷ []) ∷ none ∷ some (request (codes "/") ∷ []) ∷ [] in
    (before : List Connection) × ((run env 2 true accepted).served
      ≡ map (serve_connection env 2) before)
    × (((accepted ≡ map some before) × ((run env 2 true accepted).listening ≡ true))
        ⊎ ((after : List (Option Connection)) × (accepted ≡ map some before ++ (none ∷ after))
            × ((run env 2 true accepted).listening ≡ false)))
run-ends_example =
    run-ends env 2 (some (request (codes "/") ∷ []) ∷ none ∷ some (request (codes "/") ∷ []) ∷ [])

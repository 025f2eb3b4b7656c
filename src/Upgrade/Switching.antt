-- ===== src/Upgrade/Switching.antt =====
-- When a client is let in, and what it is told.
use gateway_proxy.Prelude.{
  ℕ, ◌^◌, ◌<◌, ◌≡◌, ◌≢◌, ◌⊎◌, refl, Bool, true, false, none, some, ◌++◌, Option-cases, Bool-cases,
  inl, inr,
}
use gateway_proxy.Text.{codes, as_bytes}
use gateway_proxy.Text.Number.{format, from_str, from_str-format}
use gateway_proxy.Text.Words.{text_eq}
use gateway_proxy.Model.{get, insert}
use gateway_proxy.Upgrade.{
  HeaderValue, Request, Env, Answer, guid, upgrade_name, key_name, accept_name, wants_zlib,
  bad_request, new_response, is_upgrade, accept_key, switched, switching, server, handler,
}

module _ (env : Env) where
  -- The answer lets the client in, with this compression and this key for the client.
  pub record Accepts (use_zlib : Bool) (accept : HeaderValue) (answer : Answer) : Type 0 where
    pub switched : answer.0.status ≡ 101
    pub handled : answer.1 ≡ some use_zlib
    pub upgrade : get answer.0.headers upgrade_name ≡ some (as_bytes (codes "websocket"))
    pub key : get answer.0.headers accept_name ≡ some accept

  switched-Accepts :
      (accept : HeaderValue) (use_zlib : Bool) → Accepts use_zlib accept (switched accept use_zlib)
  unfolding switched text_eq insert get
  switched-Accepts accept use_zlib = record {
    switched = refl;
    handled = refl;
    upgrade = refl;
    key = refl;
  }

  -- Where the encoded digest of a key is a header value, a request for a websocket that has a key is
  -- accepted, with the digest of the key and the GUID, and handled with the compression that it asks
  -- for; any other request gets a 400 and is not handled. No request makes the proxy panic.
  pub server_lem :
      (request : Request)
      → ((websocket_key : HeaderValue) → env.from_str (accept_key env websocket_key) ≢ none)
      → ((websocket_key accept : HeaderValue) × (answer : Answer) × (request.headers key_name
            ≡ some websocket_key)
          × (env.from_str (env.base64 (env.sha1 (websocket_key ++ as_bytes guid))) ≡ some accept)
          × (is_upgrade env request ≡ true)
          × (server env request ≡ some answer)
          × Accepts (wants_zlib request) accept answer)
        ⊎ (((is_upgrade env request ≡ false) ⊎ (request.headers key_name ≡ none))
            × (server env request ≡ some bad_request))
  unfolding server switching accept_key
  server_lem request encodes = elim (Bool-cases (is_upgrade env request)) [
    | inr plain ↦ inr (inl plain, rw plain refl)
    | inl upgrade ↦ elim (Option-cases (request.headers key_name)) [
      | inl missing ↦ inr (inr missing, rw upgrade (rw missing refl))
      | inr (websocket_key, has) ↦
          elim (Option-cases (env.from_str (accept_key env websocket_key))) [
            | inl panics ↦ absurd (encodes websocket_key panics)
            | inr (accept, encoded) ↦ inl (
              websocket_key,
              accept,
              switched accept (wants_zlib request),
              has,
              encoded,
              upgrade,
              rw upgrade (rw has (rw encoded refl)),
              switched-Accepts accept (wants_zlib request),
            )
          ]
    ]
  ]

  -- The body of the answer to GET /shard-count is read as the shard count, and nobody is let in.
  pub handler-shard_count :
      (shard_count : ℕ) (request : Request)
      → request.method ≡ codes "GET"
      → request.path ≡ codes "/shard-count"
      → shard_count < 2 ^ 32
      → (answer : Answer) × (handler env shard_count request ≡ some answer)
        × (answer.0.status ≡ 200)
        × (from_str 32 answer.0.body ≡ some shard_count)
        × (answer.1 ≡ none)
  unfolding handler text_eq
  handler-shard_count shard_count request is_get is_path bound = (
    (record new_response { body = format shard_count }, none),
    rw (is_get, is_path, handler) refl,
    refl,
    from_str-format 32 shard_count bound,
    refl,
  )

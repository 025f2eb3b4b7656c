-- ===== src/Config/Loading/Cases.antt =====
-- When a configuration loads, and when loading it ends the process.
use gateway_proxy.Prelude.{
  ◌≡◌, ◌≢◌, ◌↔◌, refl, sym, subst, Option, none, some, ◌⊎◌, inl, inr, Option-cases, arith,
}
use mathlib.Core.Option
use gateway_proxy.Text.{Text, codes}
use gateway_proxy.Config.Loading.{
  Fields, Env, Outcome, ok, err, exit, map_err, invalid_config, no_token, token_fallback, token_of,
  config_of, from_str, load,
}

module _ {Intents Activity Status JsonError : Type 0}
    (env : Env Intents Activity Status JsonError) where
  -- The token comes from the file or from the environment.
  abbrev pub HasToken : Fields Intents Activity Status → Type 0
  HasToken f = (f.token ≢ none) ⊎ (env.var (codes "TOKEN") ≢ none)

  -- The file has all that there is no default for.
  pub record IsComplete (content : Text) : Type 0 where
    pub fields : Fields Intents Activity Status
    pub read : env.fields content ≡ inr fields
    pub has_token : HasToken fields
    pub has_intents : fields.intents ≢ none
    pub has_url : fields.externally_accessible_url ≢ none

  -- The file is read, but there is no token, neither in it nor in the environment.
  pub record LacksToken (content : Option Text) : Type 0 where
    pub text : Text
    pub fields : Fields Intents Activity Status
    pub content_is : content ≡ some text
    pub read : env.fields text ≡ inr fields
    pub no_field : fields.token ≡ none
    pub no_variable : env.var (codes "TOKEN") ≡ none

  abbrev pub IsOk : {E A : Type 0} → Outcome E A → Type 0
  IsOk (ok a) = Unit
  IsOk (err e) = ⊥
  IsOk (exit message) = ⊥

  abbrev pub IsErr : {E A : Type 0} → Outcome E A → Type 0
  IsErr (ok a) = ⊥
  IsErr (err e) = Unit
  IsErr (exit message) = ⊥

  abbrev pub IsExit : {E A : Type 0} → Outcome E A → Type 0
  IsExit (ok a) = ⊥
  IsExit (err e) = ⊥
  IsExit (exit message) = Unit

  token_of-cases :
      (f : Fields Intents Activity Status)
      → ((f.token ≡ none)
          × (env.var (codes "TOKEN") ≡ none)
          × (token_of env f.token ≡ exit no_token))
        ⊎ (HasToken f × (token : Text) × (token_of env f.token ≡ ok token))
  unfolding token_of token_fallback
  token_of-cases f = elim (Option-cases f.token) [
    | inr (token, e) ↦ inr (inl (λ e'. absurd cc), token, rw (e, token_of) refl)
    | inl e ↦ elim (Option-cases (env.var (codes "TOKEN"))) [
      | inl e' ↦ inl (e, e', rw (e, token_of) (rw (e', token_fallback) refl))
      | inr (token, e') ↦
          inr (inr (λ e''. absurd cc), token, rw (e, token_of) (rw (e', token_fallback) refl))
    ]
  ]

  -- The fields load, in one of three ways.
  config_of-cases :
      (f : Fields Intents Activity Status)
      → ((f.token ≡ none) × (env.var (codes "TOKEN") ≡ none) × IsExit (config_of env f))
        ⊎ ((HasToken f
              × ((f.intents ≡ none) ⊎ (f.externally_accessible_url ≡ none))
              × IsErr (config_of env f))
            ⊎ (HasToken f
                × (f.intents ≢ none)
                × (f.externally_accessible_url ≢ none)
                × IsOk (config_of env f)))
  unfolding config_of
  config_of-cases f = elim (token_of-cases f) [
    | inl (e, e', x) ↦ inl (e, e', rw (x, config_of) tt)
    | inr (has, token, x) ↦ inr (elim (Option-cases f.intents) [
      | inl e ↦ inl (has, inl e, rw (x, config_of) (rw e tt))
      | inr (intents, e) ↦ elim (Option-cases f.externally_accessible_url) [
        | inl e' ↦ inl (has, inr e', rw (x, config_of) (rw e (rw e' tt)))
        | inr (url, e') ↦
            inr (has, (λ z. absurd cc), (λ z. absurd cc), rw (x, config_of) (rw e (rw e' tt)))
      ]
    ])
  ]

  IsOk-IsExit : {E A : Type 0} (o : Outcome E A) → IsOk o → IsExit o → ⊥
  IsOk-IsExit (ok a) k x = x
  IsOk-IsExit (exit m) k x = k
  IsOk-IsExit (err e) k x = k

  IsOk-IsErr : {E A : Type 0} (o : Outcome E A) → IsOk o → IsErr o → ⊥
  IsOk-IsErr (ok a) k x = x
  IsOk-IsErr (exit m) k x = k
  IsOk-IsErr (err e) k x = k

  IsErr-IsExit : {E A : Type 0} (o : Outcome E A) → IsErr o → IsExit o → ⊥
  IsErr-IsExit (ok a) k x = x
  IsErr-IsExit (exit m) k x = k
  IsErr-IsExit (err e) k x = x

  read-cases :
      (content : Text)
      → ((e : JsonError) × (env.fields content ≡ inl e))
        ⊎ ((f : Fields Intents Activity Status) × (env.fields content ≡ inr f))
  read-cases content = go (env.fields content)
    where
      go :
          (r : JsonError ⊎ Fields Intents Activity Status)
          → ((e : JsonError) × (r ≡ inl e)) ⊎ ((f : Fields Intents Activity Status) × (r ≡ inr f))
      go (inl e) = inl (e, refl)
      go (inr f) = inr (f, refl)

  map_err-IsOk : {E F A : Type 0} (g : E → F) (o : Outcome E A) → IsOk o ↔ IsOk (map_err g o)
  map_err-IsOk g (ok a) = (λ h. h, λ h. h)
  map_err-IsOk g (err e) = (λ h. h, λ h. h)
  map_err-IsOk g (exit m) = (λ h. h, λ h. h)

  map_err-IsExit : {E F A : Type 0} (g : E → F) (o : Outcome E A) → IsExit o ↔ IsExit (map_err g o)
  map_err-IsExit g (ok a) = (λ h. h, λ h. h)
  map_err-IsExit g (err e) = (λ h. h, λ h. h)
  map_err-IsExit g (exit m) = (λ h. h, λ h. h)

  load-unreadable :
      (path content : Text) (e : JsonError)
      → env.fields content ≡ inl e
      → load env path (some content) ≡ err (invalid_config e)
  unfolding load from_str
  load-unreadable path content e h = rw (h, from_str) refl

  load-readable :
      (path content : Text) (f : Fields Intents Activity Status)
      → env.fields content ≡ inr f
      → load env path (some content) ≡ map_err invalid_config (config_of env f)
  unfolding load from_str
  load-readable path content f h = rw (h, from_str) refl

  complete-IsOk :
      (f : Fields Intents Activity Status)
      → HasToken f
      → f.intents ≢ none
      → f.externally_accessible_url ≢ none
      → IsOk (config_of env f)
  complete-IsOk f has_token has_intents has_url = elim (config_of-cases f) [
    | inr (inr (_, _, _, k)) ↦ k
    | inr (inl (_, inl missing, _)) ↦ absurd (has_intents missing)
    | inr (inl (_, inr missing, _)) ↦ absurd (has_url missing)
    | inl (no_field, no_variable, _) ↦
        absurd (elim has_token [ inl h ↦ h no_field | inr h ↦ h no_variable ])
  ]

  loads : (path text : Text) → IsComplete text → IsOk (load env path (some text))
  loads path text c = subst IsOk (sym (load-readable path text c.fields c.read)) (
      (map_err-IsOk invalid_config (config_of env c.fields)).0
        (complete-IsOk c.fields c.has_token c.has_intents c.has_url))

  lacks-IsExit :
      (f : Fields Intents Activity Status)
      → f.token ≡ none
      → env.var (codes "TOKEN") ≡ none
      → IsExit (config_of env f)
  lacks-IsExit f no_field no_variable = elim (config_of-cases f) [
    | inl (_, _, x) ↦ x
    | inr (inl (t, _, _)) ↦ absurd (elim t [ inl h ↦ h no_field | inr h ↦ h no_variable ])
    | inr (inr (t, _, _, _)) ↦ absurd (elim t [ inl h ↦ h no_field | inr h ↦ h no_variable ])
  ]

  -- A configuration loads exactly if the file can be read, is valid, and has the intents and the URL, and
  -- the token is there or in the environment; everything else has a default.
  pub load-IsOk_iff :
      (path : Text) (content : Option Text)
      → IsOk (load env path content) ↔ ((text : Text) × (content ≡ some text) × IsComplete text)
  load-IsOk_iff path none = (λ h. absurd (unfold load in h), λ h. absurd cc)
  load-IsOk_iff path (some content) = (
    λ k. (content, refl, complete k),
    λ (text, is, c). rw (Option.some_inj.0 is) (loads path text c),
  )
    where
      complete : IsOk (load env path (some content)) → IsComplete content
      complete k = elim (read-cases content) [
        | inl (e, h) ↦ absurd (subst IsOk (load-unreadable path content e h) k)
        | inr (f, h) ↦
            let k' =
              (map_err-IsOk invalid_config (config_of env f)).1
                (subst IsOk (load-readable path content f h) k) in
            elim (config_of-cases f) [
              | inl (_, _, x) ↦ absurd (IsOk-IsExit _ k' x)
              | inr (inl (_, _, x)) ↦ absurd (IsOk-IsErr _ k' x)
              | inr (inr (t, i, u, _)) ↦ record {
                fields = f;
                read = h;
                has_token = t;
                has_intents = i;
                has_url = u;
              }
            ]
      ]

  -- Loading ends the process exactly if the file is valid and there is no token, neither in it nor in the
  -- environment.
  pub load-IsExit_iff :
      (path : Text) (content : Option Text) → IsExit (load env path content) ↔ LacksToken content
  load-IsExit_iff path none =
      (λ h. absurd (unfold load in h), λ h. absurd (ground (arith, h.content_is)))
  load-IsExit_iff path (some content) = (
    lacks,
    λ l.
        subst (λ c. IsExit (load env path c)) (sym l.content_is)
          (subst IsExit (sym (load-readable path l.text l.fields l.read)) (
            (map_err-IsExit invalid_config (config_of env l.fields)).0
              (lacks-IsExit l.fields l.no_field l.no_variable))),
  )
    where
      lacks : IsExit (load env path (some content)) → LacksToken (some content)
      lacks k = elim (read-cases content) [
        | inl (e, h) ↦ absurd (subst IsExit (load-unreadable path content e h) k)
        | inr (f, h) ↦
            let k' =
              (map_err-IsExit invalid_config (config_of env f)).1
                (subst IsExit (load-readable path content f h) k) in
            elim (config_of-cases f) [
              | inl (no_field, no_variable, _) ↦ record {
                text = content;
                fields = f;
                content_is = refl;
                read = h;
                no_field = no_field;
                no_variable = no_variable;
              }
              | inr (inl (_, _, x)) ↦ absurd (IsErr-IsExit _ x k')
              | inr (inr (_, _, _, x)) ↦ absurd (IsOk-IsExit _ x k')
            ]
      ]

-- ===== src/Config/Loading/Reload.antt =====
-- `watch_config_changes`: the changes of the file while the proxy runs.
use gateway_proxy.Prelude.{
  ◌≡◌, ◌↔◌, refl, sym, subst, Option, none, some, List, [], ◌∷◌, ◌⊎◌, inl, inr, Occurs, filter_map,
  true, Bool-cases, filter_map-drop, filter_map-keep, arith,
}
use gateway_proxy.Text.{Text}
use gateway_proxy.Config.Loading.{
  Config, Env, Error, Outcome, ok, err, exit, get_or, load, config_path, reload,
  watch_config_changes, Inotify, until_error, watch,
}
use gateway_proxy.Config.Loading.Cases.{LacksToken, IsExit, load-IsExit_iff}

-- The last element, or `a`.
abbrev pub last_or : {A : Type 0} → List A → A → A
last_or [] a = a
last_or (b ∷ bs) a = last_or bs b

none-some : {A : Type 0} {a : A} → none ≡ some a → ⊥
none-some e = cc

module _ {Intents Activity Status JsonError LevelFilter : Type 0}
    (env : Env Intents Activity Status JsonError) (level_from_str : Text → Option LevelFilter)
    (info : LevelFilter) where
  -- The level that a version of the file asks for, if it loads.
  abbrev pub level_of : Option Text → Option LevelFilter
  level_of content = elim (load env (config_path env) content) [
    | ok config ↦ some (get_or (level_from_str config.log_level) info)
    | err e ↦ none
    | exit message ↦ none
  ]

  -- The effect of one version of the file.
  reload-cases :
      (content : Option Text) (filter : LevelFilter)
      → (LacksToken env content × (reload env level_from_str info content filter ≡ none))
        ⊎ ((¬ LacksToken env content)
            × (((level : LevelFilter) × (level_of content ≡ some level)
                  × (reload env level_from_str info content filter ≡ some level))
                ⊎ ((level_of content ≡ none)
                    × (reload env level_from_str info content filter ≡ some filter))))
  unfolding reload
  reload-cases content filter = go (load env (config_path env) content) refl
    where
      iff : IsExit env (load env (config_path env) content) ↔ LacksToken env content
      iff = load-IsExit_iff env (config_path env) content

      go :
          (o : Outcome (Error JsonError) (Config Intents Activity Status))
          → load env (config_path env) content ≡ o
          → (LacksToken env content × (reload env level_from_str info content filter ≡ none))
            ⊎ ((¬ LacksToken env content)
                × (((level : LevelFilter) × (level_of content ≡ some level)
                      × (reload env level_from_str info content filter ≡ some level))
                    ⊎ ((level_of content ≡ none)
                        × (reload env level_from_str info content filter ≡ some filter))))
      go (ok config) e = inr (
        λ lacks. subst (IsExit env) e (iff.1 lacks),
        inl (
          get_or (level_from_str config.log_level) info,
          rw (e, level_of) refl,
          rw (e, reload) refl,
        ),
      )
      go (err x) e = inr (
        λ lacks. subst (IsExit env) e (iff.1 lacks),
        inr (rw (e, level_of) refl, rw (e, reload) refl),
      )
      go (exit message) e = inl (iff.0 (subst (IsExit env) (sym e) tt), rw (e, reload) refl)

  later :
      (content : Option Text) (contents : List (Option Text)) (f : LevelFilter)
      → (¬ LacksToken env content)
      → (watch_config_changes env level_from_str info contents f ≡ none)
        ↔ ((c : Option Text) × Occurs c contents × LacksToken env c)
      → (watch_config_changes env level_from_str info contents f ≡ none)
        ↔ ((c : Option Text) × Occurs c (content ∷ contents) × LacksToken env c)
  later content contents f has iff = (
    λ h. (let (c, o, l) = iff.0 h in (c, inr o, l)),
    λ (c, o, l). elim o [
      | inl same ↦ absurd (has (subst (LacksToken env) same l))
      | inr o' ↦ iff.1 (c, o', l)
    ],
  )

  -- The proxy survives the changes of the file exactly if no version of it is valid without a token
  -- while there is none in the environment.
  pub watch_config_changes-eq-none_iff :
      (contents : List (Option Text)) (filter : LevelFilter)
      → (watch_config_changes env level_from_str info contents filter ≡ none)
        ↔ ((content : Option Text) × Occurs content contents × LacksToken env content)
  unfolding watch_config_changes
  watch_config_changes-eq-none_iff [] filter = (λ h. absurd cc, λ (c, o, l). absurd o)
  watch_config_changes-eq-none_iff (content ∷ contents) filter =
      elim (reload-cases content filter) [
        | inl (lacks, e) ↦ (λ _. (content, inl refl, lacks), λ _. rw (e, watch_config_changes) refl)
        | inr (has, inl (level, _, e)) ↦
            rw (e, watch_config_changes)
              (later content contents level has (watch_config_changes-eq-none_iff contents level))
        | inr (has, inr (_, e)) ↦
            rw (e, watch_config_changes)
              (later content contents filter has (watch_config_changes-eq-none_iff contents filter))
      ]

  -- Where the proxy survives, the level of the log is that of the last version of the file that loads,
  -- and the old one if none does.
  pub watch_config_changes-last :
      (contents : List (Option Text)) (filter filter' : LevelFilter)
      → watch_config_changes env level_from_str info contents filter ≡ some filter'
      → filter' ≡ last_or (filter_map level_of contents) filter
  unfolding watch_config_changes
  watch_config_changes-last [] filter filter' h = unfold filter_map in ground arith
  watch_config_changes-last (content ∷ contents) filter filter' h =
      elim (reload-cases content filter) [
        | inl (_, e) ↦ absurd (none-some (rw (e, watch_config_changes) at h))
        | inr (_, inl (level, has, e)) ↦
            subst (λ ls. filter' ≡ last_or ls filter) (sym (filter_map-keep level_of contents has))
              (watch_config_changes-last contents level filter' (rw (e, watch_config_changes) at h))
        | inr (_, inr (lacks, e)) ↦
            subst (λ ls. filter' ≡ last_or ls filter)
              (sym (filter_map-drop level_of contents lacks))
              (watch_config_changes-last contents filter filter'
                (rw (e, watch_config_changes) at h))
      ]

  -- The watch of the file ends the process exactly if the file can be watched and, before an event is an
  -- error, some version of it is valid without a token while the environment has none.
  pub watch-eq-none_iff :
      (inotify : Inotify) (filter : LevelFilter)
      → (watch env level_from_str info inotify filter ≡ none) ↔ (
          (inotify.is_initialized ≡ true)
          × (inotify.is_watching ≡ true)
          × (content : Option Text) × Occurs content (until_error inotify.events)
          × LacksToken env content)
  unfolding watch
  watch-eq-none_iff inotify filter =
      let (to, back) = watch_config_changes-eq-none_iff (until_error inotify.events) filter in
      elim (Bool-cases inotify.is_initialized) [
        | inr off ↦
            (λ h. absurd (none-some (sym (rw (off, watch) at h))), λ (on, _, _, _, _). absurd cc)
        | inl on ↦ elim (Bool-cases inotify.is_watching) [
          | inr off ↦ (
            λ h. absurd (none-some (sym (rw (on, off, watch) at h))),
            λ (_, on', _, _, _). absurd cc,
          )
          | inl on' ↦ (
            λ h.
                let (content, occurs, lacks) = to (rw (on, on', watch) at h) in
                (on, on', content, occurs, lacks),
            λ (_, _, content, occurs, lacks). rw (on, on', watch) (back (content, occurs, lacks)),
          )
        ]
      ]

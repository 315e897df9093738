-- ===== src/Config/Loaded.antt =====
-- When a process gets its configuration, and when it survives a change: conf/nacos/conf.go.
use foundation_framework.Base.{
  String, ◌≡◌, ◌≢◌, ◌∙◌, refl, ap, sym, ◌↔◌, ◌⊎◌, inl, inr, ◌=ˢ◌, eq_iff, Bool, true, false, none,
  some, some_inj, List, [], ◌∷◌, not, ◌||◌, ◌++◌, if◌then◌else◌, Bool-cases, Option-cases,
}
use foundation_framework.Err.{Error, is_nil}
use foundation_framework.Config.{
  Conf, Options, SetOption, apply_options, Centre, client_configs, loaders, must, parse_content,
  loaded, answered, must_load, changes,
}

json_yaml : ◌≢◌ {A = String} "json" "yaml"
json_yaml h = let f = (eq_iff "json" "yaml").1 h in absurd (cc)

module _ {V : Type 0} (load_json load_yaml : String → V → V × Error)
    (expand_env : String → String) where
  -- The loader of a format and the document, with its variables replaced where `env` asks for it.
  abbrev pub load_of : Options → (String → V → V × Error) → String → V → V × Error
  load_of opt loader doc v = loader (if opt.env then expand_env doc else doc) v

  -- `v` was loaded by `loader`, and with `env` without an error.
  abbrev pub IsLoaded : Options → (String → V → V × Error) → String → V → V → Type 0
  IsLoaded opt loader doc v w =
      ((load_of opt loader doc v).0 ≡ w)
      × ((not opt.env || is_nil (load_of opt loader doc v).1) ≡ true)

  must_iff :
      (r : V × Error) (w : V)
      → (must load_json load_yaml expand_env r ≡ some w) ↔ ((r.0 ≡ w) × (is_nil r.1 ≡ true))
  unfolding must
  must_iff (v, e) w = elim (Bool-cases (is_nil e)) [
    | inl t ↦ rw t (λ h. (some_inj h, refl), λ h. ap some h.0)
    | inr f ↦ rw f (λ h. absurd (cc), λ h. absurd (cc))
  ]

  parse_content_iff :
      (loader : String → V → V × Error) (opt : Options) (doc : String) (v w : V)
      → (parse_content load_json load_yaml expand_env loader opt doc v ≡ some w)
        ↔ IsLoaded opt loader doc v w
  unfolding parse_content
  parse_content_iff loader opt doc v w = elim (Bool-cases opt.env) [
    | inl t ↦ let m = must_iff (loader (expand_env doc) v) w in rw t m
    | inr f ↦ rw f (λ h. (some_inj h, refl), λ h. ap some h.0)
  ]

  -- The configured format is json or yaml, and its own loader is taken.
  format_iff :
      (format : String) (opt : Options) (doc : String) (v w : V)
      → (loaded load_json load_yaml expand_env
            (loaders load_json load_yaml expand_env format)
            opt
            doc
            v
          ≡ some w)
        ↔ (((format ≡ "json") × IsLoaded opt load_json doc v w)
            ⊎ ((format ≡ "yaml") × IsLoaded opt load_yaml doc v w))
  unfolding loaders loaded
  format_iff format opt doc v w = elim (Bool-cases (format =ˢ "json")) [
    | inl j ↦
        let eq : format ≡ "json" = (eq_iff format "json").0 j in
        let m = parse_content_iff load_json opt doc v w in
        rw j (
          λ h. inl (eq, m.0 h),
          λ h. elim h [ inl k ↦ m.1 k.1 | inr k ↦ absurd (json_yaml (sym eq ∙ k.0)) ],
        )
    | inr not_json ↦ elim (Bool-cases (format =ˢ "yaml")) [
      | inl y ↦
          let eq : format ≡ "yaml" = (eq_iff format "yaml").0 y in
          let m = parse_content_iff load_yaml opt doc v w in
          rw (not_json, y)
            (
              λ h. inr (eq, m.0 h),
              λ h. elim h [ inl k ↦ absurd (json_yaml (sym k.0 ∙ eq)) | inr k ↦ m.1 k.1 ],
            )
      | inr not_yaml ↦
          rw (not_json, not_yaml)
            (
              λ h. absurd (cc),
              λ h. elim h [
                | inl k ↦ let f = (eq_iff format "json").1 k.0 in absurd (cc)
                | inr k ↦ let f = (eq_iff format "yaml").1 k.0 in absurd (cc)
              ],
            )
    ]
  ]

  answered_iff :
      (c : Conf) (opt : Options) (doc : String) (e : Error) (v w : V)
      → (answered load_json load_yaml expand_env c opt (doc, e) v ≡ some w) ↔ (
          (is_nil e ≡ true)
          × (((c.config_param.format ≡ "json") × IsLoaded opt load_json doc v w)
              ⊎ ((c.config_param.format ≡ "yaml") × IsLoaded opt load_yaml doc v w)))
  unfolding answered
  answered_iff c opt doc e v w = elim (Bool-cases (is_nil e)) [
    | inr f ↦ rw f (λ h. absurd (cc), λ h. absurd (cc))
    | inl t ↦
        let m = format_iff c.config_param.format opt doc v w in
        rw t (λ h. (refl, m.0 h), λ h. m.1 h.1)
  ]

  -- `MustLoad`, once it has read its own configuration, returns exactly if `v` is a pointer, the client of nacos is created, it answers the
  -- query for the configured data id and group, the configured format is json or yaml, and, with
  -- `UseEnv`, the document loads without an error once its variables are replaced; then `v` holds what the
  -- loader of that format has made of it. Without `UseEnv` a document that the loader refuses is no error.
  pub must_load_iff :
      (c : Conf) (is_pointer : Bool) (n : Centre) (opts : List SetOption) (v w : V)
      → (must_load load_json load_yaml expand_env c is_pointer n opts v ≡ some w) ↔ (
          (is_pointer ≡ true)
          × (is_nil (n.create_error (client_configs c)) ≡ true)
          × (is_nil (n.get_config c.config_param.data_id c.config_param.group).1 ≡ true)
          × (((c.config_param.format ≡ "json")
                × IsLoaded
                    (apply_options opts (record { env = false }))
                    load_json
                    (n.get_config c.config_param.data_id c.config_param.group).0
                    v
                    w)
              ⊎ ((c.config_param.format ≡ "yaml")
                  × IsLoaded
                      (apply_options opts (record { env = false }))
                      load_yaml
                      (n.get_config c.config_param.data_id c.config_param.group).0
                      v
                      w)))
  unfolding must_load
  must_load_iff c is_pointer n opts v w =
      let (doc, e) = n.get_config c.config_param.data_id c.config_param.group in
      let m = answered_iff c (apply_options opts (record { env = false })) doc e v w in
      elim (Bool-cases is_pointer) [
        | inr f ↦ rw f (λ h. absurd (cc), λ h. absurd (cc))
        | inl p ↦ rw p (elim (Bool-cases (is_nil (n.create_error (client_configs c)))) [
          | inr f ↦ rw f (λ h. absurd (cc), λ h. absurd (cc))
          | inl k ↦
              rw k
                (λ h. (refl, refl, (m.0 h).0, (m.0 h).1), λ h. let (_, _, q, l) = h in m.1 (q, l))
        ])
      ]

  changes-none :
      (loader : String → V → V × Error) (opt : Options) (ds : List String)
      → changes load_json load_yaml expand_env loader opt ds none ≡ none
  unfolding changes
  changes-none loader opt [] = refl
  changes-none loader opt (d ∷ ds) = refl

  exits :
      (loader : String → V → V × Error) (opt : Options) (bad : String) (v : V)
      → opt.env ≡ true
      → is_nil (loader (expand_env bad) v).1 ≡ false
      → parse_content load_json load_yaml expand_env loader opt bad v ≡ none
  unfolding parse_content must
  exits loader opt bad v t h = rw (t, h) refl

  -- With `UseEnv`, a changed document that the loader refuses ends the process, whatever changes come
  -- before and after it.
  bad_change_exits :
      (loader : String → V → V × Error) (opt : Options) (before after : List String) (bad : String)
      (v : V)
      → opt.env ≡ true
      → ((u : V) → is_nil (loader (expand_env bad) u).1 ≡ false)
      → changes load_json load_yaml expand_env loader opt (before ++ bad ∷ after) (some v) ≡ none
  unfolding changes
  bad_change_exits loader opt [] after bad v t h =
      rw (changes, exits loader opt bad v t (h v)) (changes-none loader opt after)
  bad_change_exits loader opt (d ∷ before) after bad v t h =
      elim (Option-cases (parse_content load_json load_yaml expand_env loader opt d v)) [
        | inl e ↦ rw (changes, e) (changes-none loader opt (before ++ bad ∷ after))
        | inr (u, e) ↦ rw (changes, e) (bad_change_exits loader opt before after bad u t h)
      ]

  stays :
      (loader : String → V → V × Error) (opt : Options) (doc : String) (v : V)
      → opt.env ≡ false
      → parse_content load_json load_yaml expand_env loader opt doc v ≡ some (loader doc v).0
  unfolding parse_content
  stays loader opt doc v f = rw f refl

  -- Without `UseEnv` no change ends the process.
  changes_survive :
      (loader : String → V → V × Error) (opt : Options) (ds : List String) (v : V)
      → opt.env ≡ false
      → (w : V) × (changes load_json load_yaml expand_env loader opt ds (some v) ≡ some w)
  unfolding changes
  changes_survive loader opt [] v f = (v, refl)
  changes_survive loader opt (d ∷ ds) v f =
      rw (changes, stays loader opt d v f) (changes_survive loader opt ds (loader d v).0 f)

-- ===== src/Reg/Discovery/Filtered.antt =====
-- Which instances a discovery offers, after its callbacks and rounds.
use foundation_framework.Base.{
  suc, String, Bool, true, false, List, [], ◌∷◌, if◌then◌else◌, Option, none, some, ◌≡◌, refl, ap,
  ◌∙◌, ◌++◌, All, length, Bool-cases, inl, inr,
}
use foundation_framework.Base.Dict.{Dict}
use foundation_framework.Err.{Error, is_nil, nil}
use foundation_framework.Reg.Instance.{Instance}
use foundation_framework.Reg.Discovery.{Discovery, KvPair, changed, pairs_of, passes, new_discovery}
use foundation_framework.Reg.Discovery.Nacos.{fetch, subscribe_callback, any_instance}
use foundation_framework.Reg.Discovery.Consul.{
  Answer, Watch, new_watch, instances_of, watch_round, watch_rounds, answered,
}

module _ (show_map : Dict String → String) where
  pairs-none :
      (is : List Instance)
      → All (λ i. i.enable ≡ false) is
      → pairs_of show_map (λ i. i.enable) none is ≡ []
  unfolding pairs_of
  pairs-none [] h = refl
  pairs-none (i ∷ is) h = rw (h.0) (pairs-none is h.1)

  length-pairs_of :
      (is : List Instance) → length (pairs_of show_map any_instance none is) ≡ length is
  unfolding pairs_of any_instance passes
  length-pairs_of [] = refl
  length-pairs_of (i ∷ is) = ap suc (length-pairs_of is)

  -- Where every instance of a service is disabled and no filter is set, the fetch at the start offers
  -- none of them, and each change offers all of them.
  disabled_instances_offered :
      (is : List Instance) (e : Error) (d : Discovery)
      → d.filter ≡ none
      → All (λ i. i.enable ≡ false) is
      → (fetch show_map is nil d ≡ some (record d { pairs = [] }))
        × (length (subscribe_callback show_map is e d).pairs ≡ length is)
  unfolding fetch subscribe_callback changed
  disabled_instances_offered is e d none_set off = (
    ap (λ (ps : List KvPair). some (record d { pairs = ps }))
        (ap (λ (f : Option (KvPair → Bool)). pairs_of show_map (λ i. i.enable) f is) none_set
          ∙ pairs-none is off),
    ap (λ (f : Option (KvPair → Bool)). length (pairs_of show_map any_instance f is)) none_set
        ∙ length-pairs_of is,
  )

  errors_change_nothing :
      (bs : List Answer) (w : Watch)
      → All (λ b. is_nil b.error ≡ false) bs
      → watch_rounds show_map bs w ≡ w
  unfolding watch_rounds watch_round
  errors_change_nothing [] w h = refl
  errors_change_nothing (b ∷ bs) w h = rw (h.0) (errors_change_nothing bs w h.1)

  filter-watch_round :
      (a : Answer) (w : Watch) → (watch_round show_map a w).discovery.filter ≡ w.discovery.filter
  unfolding watch_round answered changed
  filter-watch_round a w = elim (Bool-cases (is_nil a.error)) [
    | inl t ↦ rw t refl
    | inr f ↦ rw f refl
  ]

  filter-watch_rounds :
      (as' : List Answer) (w : Watch)
      → (watch_rounds show_map as' w).discovery.filter ≡ w.discovery.filter
  unfolding watch_rounds
  filter-watch_rounds [] w = refl
  filter-watch_rounds (a ∷ as') w =
      filter-watch_rounds as' (watch_round show_map a w) ∙ filter-watch_round a w

  watch_rounds-append :
      (xs ys : List Answer) (w : Watch)
      → watch_rounds show_map (xs ++ ys) w ≡ watch_rounds show_map ys (watch_rounds show_map xs w)
  unfolding watch_rounds
  watch_rounds-append [] ys w = refl
  watch_rounds-append (x ∷ xs) ys w = watch_rounds-append xs ys (watch_round show_map x w)

  good_round :
      (a : Answer) (w : Watch) → a.error ≡ nil → watch_round show_map a w ≡ answered show_map a w
  unfolding watch_round
  good_round a w ok = ap (λ (e : Error). if is_nil e then answered show_map a w else w) ok

  last_round :
      (before : List Answer) (a : Answer) (after : List Answer)
      → a.error ≡ nil
      → All (λ b. is_nil b.error ≡ false) after
      → watch_rounds show_map (before ++ a ∷ after) new_watch
        ≡ answered show_map a (watch_rounds show_map before new_watch)
  unfolding watch_rounds
  last_round before a after ok bad =
      watch_rounds-append before (a ∷ after) new_watch
      ∙ errors_change_nothing after
          (watch_round show_map a (watch_rounds show_map before new_watch)) bad
      ∙ good_round a (watch_rounds show_map before new_watch) ok

  -- After any rounds, the discovery of consul offers the entries of the last answer without an error,
  -- asks next for what comes after its index, and lets NewDiscovery return.
  watch_rounds_last :
      (before : List Answer) (a : Answer) (after : List Answer)
      → a.error ≡ nil
      → All (λ b. is_nil b.error ≡ false) after
      → ((watch_rounds show_map (before ++ a ∷ after) new_watch).discovery.pairs
          ≡ pairs_of show_map (λ i. true) none (instances_of a.entries))
        × ((watch_rounds show_map (before ++ a ∷ after) new_watch).last_index ≡ a.index)
        × ((watch_rounds show_map (before ++ a ∷ after) new_watch).initialized ≡ true)
  unfolding answered changed new_watch new_discovery
  watch_rounds_last before a after ok bad =
      let e = last_round before a after ok bad in
      (
        ap (λ (w : Watch). w.discovery.pairs) e
            ∙ ap
                (λ (f : Option (KvPair → Bool)).
                  pairs_of show_map (λ i. true) f (instances_of a.entries))
                (filter-watch_rounds before new_watch),
        ap (λ (w : Watch). w.last_index) e,
        ap (λ (w : Watch). w.initialized) e,
      )

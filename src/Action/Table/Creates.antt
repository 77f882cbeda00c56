-- ===== src/Action/Table/Creates.antt =====
-- Every branch of `table_action_profile_create`.
use rids.Prelude.{
  ℕ, ◌≡◌, refl, subst, ap as cong, sym, Bool, true, false, not, ◌||◌, List, Option, none, some,
  arith, Bool-cases, Option-cases, inl, inr,
}
use rids.Registry.{is_some, is_nonzero, search_list}
use rids.Registry.Resources.{release-acquire}
use rids.Registry.Creation.{Objects, Creates, add_node, add_node-Creates}
use rids.Action.Hash.{
  LbConfig, HasHash, choose_hash, choose_hash-HasHash, register_actions, register_actions-selected,
  selected,
}
use rids.Action.Table.{
  fwd, lb, TableActionProfileParams, TableActionProfile, TableActionApi, registration_order,
  register_table_profile, table_action_profile_create,
}

module _ {C : Type 0} (api : TableActionApi C) where
  abbrev pub profile_name : TableActionProfile C → List ℕ
  profile_name p = p.name

  abbrev pub profile_handle : TableActionProfile C → ℕ
  profile_handle p = p.ap

  -- What a profile returned holds: the parameters, with the actions of the mask and no others
  -- registered in the fixed order.
  abbrev Holds : TableActionProfileParams C → Option (TableActionProfile C) → Type 0
  Holds params none = Unit
  Holds params (some x) =
      (x.params ≡ params)
      × ((register_actions params.action_mask (api.action_register x.ap params)
            registration_order).0
          ≡ selected params.action_mask registration_order)

  abbrev Registers :
      List ℕ
      → TableActionProfileParams C
      → Objects (TableActionProfile C)
      → Objects (TableActionProfile C) × Option (TableActionProfile C)
      → Type 0
  Registers name params st r =
      Creates profile_name profile_handle (some name) st r × Holds params r.1

  add_profile :
      (calloc : Bool) (name : List ℕ) (params : TableActionProfileParams C) (ap : ℕ)
      (x : TableActionProfile C) (st : Objects (TableActionProfile C))
      → x.ap ≡ ap
      → Holds params (some x)
      → Holds params (add_node calloc ap x st).1
  unfolding add_node
  add_profile true name params ap x st e h = h
  add_profile false name params ap x st e h = tt

  register_table_profile-Creates :
      (calloc : Bool) (name : List ℕ) (params : TableActionProfileParams C)
      (st : Objects (TableActionProfile C))
      → is_some (search_list profile_name name st.nodes) ≡ false
      → Registers name params st (register_table_profile api calloc name params st)
  unfolding register_table_profile
  register_table_profile-Creates calloc name params st h =
      elim (Option-cases (api.profile_create params)) [
        | inl e ↦ rw (e, register_table_profile) (refl, tt)
        | inr (ap, e) ↦
            elim (Bool-cases (
              not
                (register_actions params.action_mask (api.action_register ap params)
                  registration_order).1
              || is_nonzero (api.freeze ap))) [
                | inl f ↦
                    rw (e, register_table_profile)
                      (rw f (
                        cong (λ live. record { nodes = st.nodes; live = live })
                            (release-acquire ap st.live),
                        tt,
                      ))
                | inr f ↦
                    rw (e, register_table_profile)
                      (rw f (
                        add_node-Creates profile_name profile_handle calloc name _ st h refl,
                        add_profile calloc name params ap _ st refl (
                          refl,
                          register_actions-selected params.action_mask
                              (api.action_register ap params) registration_order (ground arith),
                        ),
                      ))
              ]
      ]

  -- What the caller's parameters and a profile returned have to do with each other.
  abbrev pub FromParams :
      Option (TableActionProfileParams C) → Option (TableActionProfile C) → Type 0
  FromParams params none = Unit {0}
  FromParams params (some x) =
      (p : TableActionProfileParams C) × (params ≡ some p)
      × (p.action_mask fwd ≡ true)
      × (x.params.action_mask ≡ p.action_mask)
      × (x.params.other_configs ≡ p.other_configs)
      × HasHash (p.action_mask lb) p.lb_config x.params.lb_config
      × ((register_actions p.action_mask (api.action_register x.ap x.params) registration_order).0
          ≡ selected p.action_mask registration_order)

  FromParams-Holds :
      (p : TableActionProfileParams C) (config : LbConfig) (r : Option (TableActionProfile C))
      → p.action_mask fwd ≡ true
      → HasHash (p.action_mask lb) p.lb_config config
      → Holds (record p { lb_config = config }) r
      → FromParams (some p) r
  FromParams-Holds p config none f h k = tt
  FromParams-Holds p config (some x) f h k = (
    p,
    refl,
    f,
    cong (λ q. q.action_mask) k.0,
    cong (λ q. q.other_configs) k.0,
    subst (λ (q : TableActionProfileParams C). HasHash (p.action_mask lb) p.lb_config q.lb_config)
        (sym k.0) h,
    subst
        (λ (q : TableActionProfileParams C).
          (register_actions p.action_mask (api.action_register x.ap q) registration_order).0
          ≡ selected p.action_mask registration_order)
        (sym k.0) k.1,
  )

  -- `table_action_profile_create` either changes nothing, with the profile of DPDK freed again, or
  -- adds one profile under a name that was not in use. A profile returned forwards; the actions
  -- registered for it are those of its mask, in the fixed order; and if it balances load, it has
  -- the caller's hash function, or where the caller gave none the one for its key size, with seed 0.
  pub table_action_profile_create-Creates :
      (calloc : Bool) (name : Option (List ℕ)) (params : Option (TableActionProfileParams C))
      (st : Objects (TableActionProfile C))
      → let r = table_action_profile_create api calloc name params st in
        Creates profile_name profile_handle name st r × FromParams params r.1
  unfolding table_action_profile_create
  table_action_profile_create-Creates calloc none params st = (refl, tt)
  table_action_profile_create-Creates calloc (some name) none st = (refl, tt)
  table_action_profile_create-Creates calloc (some name) (some p) st =
      elim (Bool-cases
        (is_some (search_list profile_name name st.nodes) || not (p.action_mask fwd))) [
          | inl e ↦ rw e (refl, tt)
          | inr e ↦ elim (Option-cases (choose_hash (p.action_mask lb) p.lb_config)) [
            | inl e' ↦ rw (e, e') (refl, tt)
            | inr (config, e') ↦
                let (c, k) =
                  register_table_profile-Creates calloc name (record p { lb_config = config }) st
                    (ground arith) in
                rw (e, e')
                  (
                    c,
                    FromParams-Holds p config _ (ground arith)
                        (choose_hash-HasHash (p.action_mask lb) p.lb_config config e') k,
                  )
          ]
        ]

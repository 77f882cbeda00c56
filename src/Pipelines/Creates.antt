-- ===== src/Pipelines/Creates.antt =====
-- Every branch of `pipeline_table_create`.
use rids.Prelude.{
  ℕ, ◌+◌, ◌<◌, ◌≡◌, refl, ap, subst, sym, ◌∙◌, ◌⊎◌, inl, inr, Bool, true, false, ◌||◌, List, [],
  Option, none, some, leb, ltb, ◌==◌, if◌then◌else◌, arith, Bool-cases, Option-cases,
}
use rids.Registry.{RteStatus, success, negative, is_nonzero, is_some}
use rids.Registry.Resources.{acquire, release, release-acquire, hold, free_handle, free_handle-hold}
use rids.Action.Table.{TableActionProfile}
use rids.Rules.Check.{TableParams, ProfileConfigs, PipelineTable}
use rids.Pipelines.{
  HashParams, TableArgs, TableApi, Assembly, table_args, profile_of, create_action, finish_table,
  create_table, pipeline_table_create, table_rule_action_size_max,
}

abbrev pub Profile : Type 0
Profile = Option (TableActionProfile ProfileConfigs)

module _ {T : Type 0} (api : TableApi T) where
  -- A failure leaves no action object behind.
  abbrev Made : Profile → List ℕ → List ℕ × Option (Option ℕ × ℕ) → Type 0
  Made found live (live', none) = live' ≡ live
  Made found live (live', some (action, size)) =
      (live' ≡ hold action live) × (is_some action ≡ is_some found)

  create_action-Made :
      (cpu_id : ℕ) (found : Profile) (live : List ℕ)
      → Made found live (create_action api cpu_id found live)
  unfolding create_action
  create_action-Made cpu_id none live = (refl, refl)
  create_action-Made cpu_id (some found) live =
      elim (Option-cases (api.action_create found.ap cpu_id)) [
        | inl e ↦ subst (Made (some found) live) (sym (result none e)) refl
        | inr (a, e) ↦ subst (Made (some found) live) (sym (result (some a) e)) (either a _)
      ]
    where
      after : Option ℕ → List ℕ × Option (Option ℕ × ℕ)
      after none = (live, none)
      after (some a) =
          if is_nonzero (api.table_params_get a).1
            || ltb table_rule_action_size_max ((api.table_params_get a).0 + api.entry_size)
          then (release a (acquire a live), none)
          else (acquire a live, some (some a, (api.table_params_get a).0))

      result :
          (o : Option ℕ)
          → api.action_create found.ap cpu_id ≡ o
          → create_action api cpu_id (some found) live ≡ after o
      result none e = rw (e, create_action) refl
      result (some a) e = rw (e, create_action) refl

      either :
          (a : ℕ) (refused : Bool)
          → Made (some found) live (
              if refused
              then (release a (acquire a live), none)
              else (acquire a live, some (some a, (api.table_params_get a).0)))
      either a true = release-acquire a live
      either a false = (refl, refl)

module _ {X T : Type 0} (api : TableApi T) where
  -- A new table with its own action object, if it has a profile, and an empty list of rules.
  pub record IsNew (params : TableParams HashParams) (found : Profile) (before after : Assembly X T)
      (handle : Option ℕ) : Type 0 where
    pub room : before.tables.n_tables < api.table_max
    pub one_more : after.tables.n_tables ≡ before.tables.n_tables + 1
    pub table : after.tables.table before.tables.n_tables ≡ record {
      params = params;
      profile = found;
      a = handle;
      rule_table = record { rules = []; rule_default = none };
    }
    pub others : (i : ℕ) → i < before.tables.n_tables → after.tables.table i ≡ before.tables.table i
    pub ports : after.tables.n_ports_out ≡ before.tables.n_ports_out
    pub live : after.live ≡ hold handle before.live
    pub action : is_some handle ≡ is_some found

  -- The tables and the live action objects are as before.
  abbrev pub Refused : Assembly X T → Assembly X T → Type 0
  Refused before after = (after.tables ≡ before.tables) × (after.live ≡ before.live)

  abbrev pub CreatesTable :
      Option (TableParams HashParams)
      → Option (List ℕ)
      → List (TableActionProfile ProfileConfigs)
      → Assembly X T
      → Assembly X T × RteStatus
      → Type 0
  CreatesTable params profile profiles before (after, status) =
      ((status ≡ negative) × Refused before after)
      ⊎ ((status ≡ success)
          × (new : TableParams HashParams) × (params ≡ some new)
          × (found : Profile) × (profile_of profile profiles ≡ some found)
          × (action : Option ℕ) × IsNew new found before after action)

  finish_table-Creates :
      (params : TableParams HashParams) (name : Option (List ℕ))
      (profiles : List (TableActionProfile ProfileConfigs)) (found : Profile) (action : Option ℕ)
      (r : T × RteStatus) (st : Assembly X T) (live : List ℕ)
      → st.tables.n_tables < api.table_max
      → profile_of name profiles ≡ some found
      → live ≡ hold action st.live
      → is_some action ≡ is_some found
      → CreatesTable
          (some params)
          name
          profiles
          st
          (finish_table params found action r (record st { live = live }))
  finish_table-Creates params name profiles found action (t, status) st live room is own same =
      elim (Bool-cases (is_nonzero status)) [
        | inl e ↦
            rw e (inl (refl, (refl, ap (free_handle action) own ∙ free_handle-hold action st.live)))
        | inr e ↦ rw e (
            inr (
              refl,
              params,
              refl,
              found,
              is,
              action,
              record {
                room = room;
                one_more = refl;
                table = new_table (record {
                  params = params;
                  profile = found;
                  a = action;
                  rule_table = record { rules = []; rule_default = none };
                });
                others = λ i l. old_table i l _;
                ports = refl;
                live = own;
                action = same;
              },
            ))
      ]
    where
      new_table :
          (table : PipelineTable HashParams X)
          → (if st.tables.n_tables == st.tables.n_tables
              then table
              else st.tables.table st.tables.n_tables)
            ≡ table
      new_table table = ground arith

      old_table :
          (i : ℕ)
          → i < st.tables.n_tables
          → (table : PipelineTable HashParams X)
          → (if i == st.tables.n_tables then table else st.tables.table i) ≡ st.tables.table i
      old_table i l table = let e : (i == st.tables.n_tables) ≡ false = ground arith in rw e refl

  create_table-Creates :
      (table_name : List ℕ) (params : TableParams HashParams) (name : Option (List ℕ))
      (profiles : List (TableActionProfile ProfileConfigs)) (found : Profile) (args : ℕ → TableArgs)
      (st : Assembly X T)
      → st.tables.n_tables < api.table_max
      → profile_of name profiles ≡ some found
      → CreatesTable
          (some params)
          name
          profiles
          st
          (create_table api table_name params found args st)
  unfolding create_table
  create_table-Creates table_name params name profiles found args st room is =
      made (create_action api st.cpu_id found st.live)
        (create_action-Made api st.cpu_id found st.live)
    where
      made :
          (r : List ℕ × Option (Option ℕ × ℕ))
          → Made api found st.live r
          → CreatesTable (some params) name profiles st (elim r.1 [
            | none ↦ (record st { live = r.0 }, negative)
            | some (action, size) ↦
                finish_table params found action
                  (api.table_create st.lower st.p table_name st.tables.n_tables
                    (args (size + api.entry_size))
                    action)
                  (record st { live = r.0 })
          ])
      made (live, none) e = inl (refl, (refl, e))
      made (live, some (action, size)) (e, same) =
          finish_table-Creates params name profiles found action _ st live room is e same

  -- Every branch of `pipeline_table_create`: it returns -1 and leaves the tables as they were and no
  -- action object behind; or it returns 0, the pipeline had room, and has one table more, with the
  -- parameters, with the profile of the given name and an action object of its own if a name was
  -- given and with none if not, and with no rules. The other tables and the live action objects
  -- are as before.
  pub pipeline_table_create-CreatesTable :
      (table_name : List ℕ) (params : Option (TableParams HashParams)) (name : Option (List ℕ))
      (profiles : List (TableActionProfile ProfileConfigs)) (st : Assembly X T)
      → CreatesTable params name profiles st
          (pipeline_table_create api table_name params name profiles st)
  unfolding pipeline_table_create
  pipeline_table_create-CreatesTable table_name none name profiles st = inl (refl, (refl, refl))
  pipeline_table_create-CreatesTable table_name (some params) name profiles st =
      elim (Bool-cases (leb api.table_max st.tables.n_tables)) [
        | inl e ↦ rw e (inl (refl, (refl, refl)))
        | inr e ↦ elim (Option-cases (profile_of name profiles)) [
          | inl e' ↦ rw (e, e', pipeline_table_create) (inl (refl, (refl, refl)))
          | inr (found, e') ↦ elim (Option-cases (table_args api.header_offset params)) [
            | inl e'' ↦ rw (e, e', e'', pipeline_table_create) (inl (refl, (refl, refl)))
            | inr (args, e'') ↦
                let result : pipeline_table_create api table_name (some params) name profiles st
                    ≡ create_table api table_name params found args st =
                  rw (e, e', e'', pipeline_table_create) refl in
                subst (CreatesTable (some params) name profiles st) (sym result) (
                  create_table-Creates table_name params name profiles found args st (ground arith)
                    e')
          ]
        ]
      ]

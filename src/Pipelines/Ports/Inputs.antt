-- ===== src/Pipelines/Ports/Inputs.antt =====
-- Every branch of `pipeline_port_in_create`.
use rids.Prelude.{
  ℕ, ◌+◌, ◌<◌, ◌≡◌, refl, ap, subst, sym, ◌∙◌, ◌⊎◌, inl, inr, Bool, true, false, List, Option, none,
  some, ◌==◌, if◌then◌else◌, arith, Bool-cases, Option-cases,
}
use rids.Registry.{RteStatus, success, negative, is_nonzero, is_some}
use rids.Registry.Resources.{acquire, release, release-acquire, hold, free_handle, free_handle-hold}
use rids.Action.PortIn.{PortInActionProfile}
use rids.Pipelines.Ports.{DeviceLists, PortInParams, Reader, reader}
use rids.Pipelines.Ports.Creation.{
  PortIn, Ports, PortApi, burst_fits, port_profile, create_port_action, finish_port_in,
  create_port_in, pipeline_port_in_create,
}

module _ {C T : Type 0} (api : PortApi T) where
  -- A failure leaves no action object behind.
  abbrev Made : Option (PortInActionProfile C) → List ℕ → List ℕ × Option (Option ℕ) → Type 0
  Made found live (live', none) = live' ≡ live
  Made found live (live', some action) =
      (live' ≡ hold action live) × (is_some action ≡ is_some found)

  create_port_action-Made :
      (cpu_id : ℕ) (found : Option (PortInActionProfile C)) (live : List ℕ)
      → Made found live (create_port_action api cpu_id found live)
  unfolding create_port_action
  create_port_action-Made cpu_id none live = (refl, refl)
  create_port_action-Made cpu_id (some found) live =
      elim (Option-cases (api.action_create found.ap cpu_id)) [
        | inl e ↦ subst (Made (some found) live) (sym (result none e)) refl
        | inr (a, e) ↦ subst (Made (some found) live) (sym (result (some a) e)) (either a _)
      ]
    where
      after : Option ℕ → List ℕ × Option (Option ℕ)
      after none = (live, none)
      after (some a) =
          if is_nonzero (api.params_get a)
          then (release a (acquire a live), none)
          else (acquire a live, some (some a))

      result :
          (o : Option ℕ)
          → api.action_create found.ap cpu_id ≡ o
          → create_port_action api cpu_id (some found) live ≡ after o
      result none e = rw (e, create_port_action) refl
      result (some a) e = rw (e, create_port_action) refl

      either :
          (a : ℕ) (refused : Bool)
          → Made (some found) live (
              if refused
              then (release a (acquire a live), none)
              else (acquire a live, some (some a)))
      either a true = release-acquire a live
      either a false = (refl, refl)

  -- A new port with its own action object, if it has a profile.
  pub record IsNewPort (d : DeviceLists) (params : PortInParams)
      (found : Option (PortInActionProfile C)) (before after : Ports C T) (handle : Option ℕ)
      : Type 0 where
    pub fits : burst_fits api.burst_max params.burst_size ≡ true
    pub device : (r : Reader) × (reader d params params.type ≡ some r)
    pub one_more : after.n_ports_in ≡ before.n_ports_in + 1
    pub port :
        after.port_in before.n_ports_in ≡ record { params = params; profile = found; a = handle }
    pub others : (i : ℕ) → i < before.n_ports_in → after.port_in i ≡ before.port_in i
    pub live : after.live ≡ hold handle before.live
    pub action : is_some handle ≡ is_some found

  abbrev pub CreatesPortIn :
      DeviceLists
      → List (PortInActionProfile C)
      → PortInParams
      → Ports C T
      → Ports C T × RteStatus
      → Type 0
  CreatesPortIn d profiles params before (after, status) =
      ((status ≡ negative)
        × (after.n_ports_in ≡ before.n_ports_in)
        × (after.port_in ≡ before.port_in)
        × (after.live ≡ before.live))
      ⊎ ((status ≡ success)
          × (found : Option (PortInActionProfile C)) × (port_profile params.action_profile_name
                profiles
              ≡ some found)
          × (handle : Option ℕ) × IsNewPort d params found before after handle)

  module _ (d : DeviceLists) (profiles : List (PortInActionProfile C)) (params : PortInParams)
      (enabled : Bool) (st : Ports C T) where
    finish_port_in-Creates :
        (found : Option (PortInActionProfile C)) (action : Option ℕ) (r : T × RteStatus × ℕ)
        (live : List ℕ)
        → burst_fits api.burst_max params.burst_size ≡ true
        → (r : Reader) × (reader d params params.type ≡ some r)
        → port_profile params.action_profile_name profiles ≡ some found
        → live ≡ hold action st.live
        → is_some action ≡ is_some found
        → CreatesPortIn d profiles params st
            (finish_port_in api params found action enabled r (record st { live = live }))
    finish_port_in-Creates found action (t, status, port_id) live fits device is own same =
        elim (Bool-cases (is_nonzero status)) [
          | inl e ↦ rw e (
              inl (refl, refl, refl, ap (free_handle action) own ∙ free_handle-hold action st.live))
          | inr e ↦ rw e (
              inr (
                refl,
                found,
                is,
                action,
                record {
                  fits = fits;
                  device = device;
                  one_more = refl;
                  port = new_port (record { params = params; profile = found; a = action });
                  others = λ i l. old_port i l _;
                  live = own;
                  action = same;
                },
              ))
        ]
      where
        new_port :
            (port : PortIn C)
            → (if st.n_ports_in == st.n_ports_in then port else st.port_in st.n_ports_in) ≡ port
        new_port port = ground arith

        old_port :
            (i : ℕ)
            → i < st.n_ports_in
            → (port : PortIn C) → (if i == st.n_ports_in then port else st.port_in i) ≡ st.port_in i
        old_port i l port = let e : (i == st.n_ports_in) ≡ false = ground arith in rw e refl

    create_port_in-Creates :
        (found : Option (PortInActionProfile C)) (r : Reader)
        → burst_fits api.burst_max params.burst_size ≡ true
        → reader d params params.type ≡ some r
        → port_profile params.action_profile_name profiles ≡ some found
        → CreatesPortIn d profiles params st (create_port_in api params found r enabled st)
    unfolding create_port_in
    create_port_in-Creates found r fits device is =
        made (create_port_action api st.cpu_id found st.live)
          (create_port_action-Made st.cpu_id found st.live)
      where
        made :
            (m : List ℕ × Option (Option ℕ))
            → Made found st.live m
            → CreatesPortIn d profiles params st (elim m.1 [
              | none ↦ (record st { live = m.0 }, negative)
              | some action ↦
                  finish_port_in api params found action enabled
                    (api.port_in_create st.lower st.p r params.burst_size action)
                    (record st { live = m.0 })
            ])
        made (live, none) e = inl (refl, refl, refl, e)
        made (live, some action) (e, same) =
            finish_port_in-Creates found action _ live fits (r, device) is e same

  -- Every branch of `pipeline_port_in_create`: it returns -1, and the ports are as they were and no
  -- action object is left behind; or it returns 0, the burst size and the device are in order, and
  -- the pipeline has one input port more, with the profile of the given name and an action object of
  -- its own if a name was given and with none if not. The other ports and action objects are as before.
  pub pipeline_port_in_create-CreatesPortIn :
      (d : DeviceLists) (profiles : List (PortInActionProfile C)) (params : PortInParams)
      (enabled : Bool) (st : Ports C T)
      → CreatesPortIn d profiles params st
          (pipeline_port_in_create api d profiles (some params) enabled st)
  unfolding pipeline_port_in_create
  pipeline_port_in_create-CreatesPortIn d profiles params enabled st =
      elim (Bool-cases (burst_fits api.burst_max params.burst_size)) [
        | inr e ↦ rw e (inl (refl, refl, refl, refl))
        | inl e ↦ elim (Option-cases (port_profile params.action_profile_name profiles)) [
          | inl e' ↦ rw (e, e', pipeline_port_in_create) (inl (refl, refl, refl, refl))
          | inr (found, e') ↦ elim (Option-cases (reader d params params.type)) [
            | inl e'' ↦ rw (e, e', e'', pipeline_port_in_create) (inl (refl, refl, refl, refl))
            | inr (r, e'') ↦
                let result : pipeline_port_in_create api d profiles (some params) enabled st
                    ≡ create_port_in api params found r enabled st =
                  rw (e, e', e'', pipeline_port_in_create) refl in
                subst (CreatesPortIn d profiles params st) (sym result)
                  (create_port_in-Creates d profiles params enabled st found r e e'' e')
          ]
        ]
      ]

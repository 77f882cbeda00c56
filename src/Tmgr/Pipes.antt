-- ===== src/Tmgr/Pipes.antt =====
-- The pipes that `tmgr_pipe_config` configures.
use rids.Prelude.{
  ℕ, zero, suc, ◌+◌, ◌-◌, ◌<◌, ◌≤◌, ◌≡◌, refl, ◌||◌, List, [], ◌∷◌, Option, some, arith, leb, ltb,
  length, All, Bool-cases, Option-cases, ◌⊎◌, inl, inr, Outcome, ok, err, failure,
}
use rids.Registry.{RteStatus, success, is_nonzero}
use rids.Tmgr.{
  Tmgr, TmgrPort, Sched, PipeCall, configure_range, tmgr_port_find, pipe_config_at,
  tmgr_pipe_config,
}

-- One call for each of `n` pipes from `i`.
pub calls_from : ℕ → ℕ → ℕ → ℕ → ℕ → List PipeCall
calls_from zero i s subport profile = []
calls_from (suc n) i s subport profile =
    record { s = s; subport_id = subport; pipe_id = i; profile_id = profile }
    ∷ calls_from n (i + 1) s subport profile

configure_range-calls :
    {S P : Type 0} (n i : ℕ) (sched : Sched S P) (s subport profile : ℕ)
    → (configure_range n i sched s subport profile).1 ≡ success
    → (configure_range n i sched s subport profile).0 ≡ calls_from n i s subport profile
unfolding configure_range calls_from
configure_range-calls zero i sched s subport profile h = refl
configure_range-calls (suc n) i sched s subport profile h =
    ground (arith, configure_range-calls n (i + 1) sched s subport profile)

abbrev pub InRange : ℕ → ℕ → ℕ → List PipeCall → Type 0
InRange s lo hi calls = All (λ c. (c.s ≡ s) × (lo ≤ c.pipe_id) × (c.pipe_id < hi)) calls

configure_range-InRange :
    {S P : Type 0} (n i lo hi : ℕ) (sched : Sched S P) (s subport profile : ℕ)
    → lo ≤ i
    → i + n ≤ hi
    → InRange s lo hi (configure_range n i sched s subport profile).0
unfolding configure_range
configure_range-InRange zero i lo hi sched s subport profile l h = tt
configure_range-InRange (suc n) i lo hi sched s subport profile l h =
    elim (Bool-cases (is_nonzero (sched.pipe_config s subport i profile))) [
      | inl e ↦ rw e ((refl, l, omega arith), tt)
      | inr e ↦ rw e (
        (refl, l, omega arith),
        configure_range-InRange n (i + 1) lo hi sched s subport profile (omega arith) (omega arith),
      )
    ]

module _ {S P : Type 0} (sched : Sched S P) (port_name : Option (List ℕ)) where
  abbrev pub Configures :
      ℕ → ℕ → ℕ → ℕ → Tmgr S P → TmgrPort → List PipeCall × Outcome RteStatus → Type 0
  Configures subport first last profile st port (calls, status) =
      (first ≤ last)
      × (last < port.n_pipes_per_subport)
      × (subport < port.n_subports_per_port)
      × (profile < length st.pipe_profile)
      × InRange port.s first (last + 1) calls
      × (status ≡ ok success → calls ≡ calls_from (last + 1 - first) first port.s subport profile)

  pipe_config_at-Configures :
      (subport first last profile : ℕ) (st : Tmgr S P) (port : TmgrPort)
      → (pipe_config_at sched port subport first last profile st ≡ ([], err failure))
        ⊎ Configures subport first last profile st port
            (pipe_config_at sched port subport first last profile st)
  unfolding pipe_config_at
  pipe_config_at-Configures subport first last profile st port =
      elim (Bool-cases (
        leb port.n_subports_per_port subport
        || leb port.n_pipes_per_subport first
        || leb port.n_pipes_per_subport last
        || ltb last first
        || leb (length st.pipe_profile) profile)) [
          | inl g ↦ inl (rw g)
          | inr g ↦ inr (
              rw g (
                ground arith,
                ground arith,
                ground arith,
                ground arith,
                configure_range-InRange (last + 1 - first) first first (last + 1) sched port.s
                    subport profile (omega arith) (ground arith),
                λ h.
                    configure_range-calls (last + 1 - first) first sched port.s subport profile
                      (ground arith),
              ))
        ]

  -- `tmgr_pipe_config` either returns -1 and makes no call, or has found the port, with the subport,
  -- the pipes and the profile within their numbers; it then configures pipes of the range only, and
  -- if it returns 0 each pipe of the range once, in order.
  pub tmgr_pipe_config-Configures :
      (subport first last profile : ℕ) (st : Tmgr S P)
      → (tmgr_pipe_config sched port_name subport first last profile st ≡ ([], err failure))
        ⊎ ((port : TmgrPort) × (tmgr_port_find port_name st.ports.nodes ≡ some port)
            × Configures subport first last profile st port
                (tmgr_pipe_config sched port_name subport first last profile st))
  unfolding tmgr_pipe_config
  tmgr_pipe_config-Configures subport first last profile st =
      elim (Option-cases (tmgr_port_find port_name st.ports.nodes)) [
        | inl e ↦ inl (rw (e, tmgr_pipe_config))
        | inr (port, e) ↦ elim (pipe_config_at-Configures subport first last profile st port) [
          | inl refused ↦ inl (rw (e, tmgr_pipe_config) refused)
          | inr done ↦ inr (port, e, rw (e, tmgr_pipe_config) done)
        ]
      ]

-- ===== src/Rules/Check/Accepted.antt =====
-- What the checks let pass.
use rids.Prelude.{
  ℕ, List, ◌<◌, ◌≤◌, ◌≡◌, refl, Bool, true, false, not, ◌&&◌, ◌||◌, some, ltb, arith, Bool-cases,
  Option-cases, inl, inr,
}
use mathlib.Core.Option.{some-injective}
use rids.Action.Table.{fwd}
use rids.Rules.Match.{Match, acl, acl_raw, array, hash, lpm, AclMatch, Addresses, ipv4, ipv6}
use rids.Rules.Convert.{
  match_convert, MatchLl, Field, acl_fields, acl_key, match_convert_ipv6_depth,
}
use rids.Rules.Convert.Depths.{match_convert_ipv6_depth_lem}
use rids.Rules.Check.{
  TableParams, acl_params, array_params, hash_params, lpm_params, Tables, RuleAction, FwdAction,
  to_port, to_table, elsewhere, params_check, match_check, action_check, fwd_target, depths_fit,
  acl_check,
}

depth_some :
    (depth : ℕ) → depth ≤ 128 → (words : List ℕ) × (match_convert_ipv6_depth depth ≡ some words)
depth_some depth h =
    let within : ltb 128 depth ≡ false = ground arith in
    rw (match_convert_ipv6_depth_lem depth, within) (_, refl)

acl_fields-ipv6 :
    (m : AclMatch) (sa da : List ℕ)
    → depths_fit m.sa_depth m.da_depth 128 ≡ true
    → (fields : List Field) × (acl_fields m (ipv6 sa da) ≡ some fields)
acl_fields-ipv6 m sa da h =
    let (sa_words, e) = depth_some m.sa_depth (ground arith) in
    let (da_words, e') = depth_some m.da_depth (ground arith) in rw (e, e') (_, refl)

acl_fields-some :
    (m : AclMatch) (ip_version : ℕ) (addresses : Addresses)
    → acl_check ip_version addresses m.sa_depth m.da_depth ≡ true
    → (fields : List Field) × (acl_fields m addresses ≡ some fields)
acl_fields-some m ip_version (ipv4 sa da) h = (_, refl)
acl_fields-some m ip_version (ipv6 sa da) h = acl_fields-ipv6 m sa da (ground arith)

params_check-converts :
    {H : Type 0} (params : TableParams H) (match : Match) (add : Bool)
    → params_check params match ≡ true
    → (key : MatchLl) × (match_convert match add ≡ some key)
unfolding match_convert
params_check-converts (acl_params n_rules offset ip_version) (acl m) add h =
    let (fields, e) = acl_fields-some m ip_version m.addresses h in
    rw e (either add fields m.priority)
  where
    either :
        (add : Bool) (fields : List Field) (priority : ℕ)
        → (key : MatchLl) × (acl_key add priority (some fields) ≡ some key)
    either true fields priority = (_, refl)
    either false fields priority = (_, refl)
params_check-converts (acl_params n_rules offset ip_version) (acl_raw m) add h = (_, refl)
params_check-converts (array_params n_keys offset) (array pos) add h = (_, refl)
params_check-converts (hash_params h) (hash key) add e = (_, refl)
params_check-converts (lpm_params n_rules offset key_size) (lpm address depth) add h = (_, refl)
params_check-converts _ _ add h = absurd (ground arith)

middle : (a b c d : Bool) → (a && (not b || c) && d) ≡ true → b ≡ true → c ≡ true
middle a b c d h e = ground arith

module _ {H X : Type 0} where
  -- Every match that `match_check` lets pass is converted to a key, to add it and to delete it.
  pub match_check-converts :
      (match : Match) (p : Tables H X) (table_id : ℕ) (add : Bool)
      → match_check match p table_id ≡ true
      → (key : MatchLl) × (match_convert match add ≡ some key)
  unfolding match_check
  match_check-converts match p table_id add h =
      params_check-converts (p.table table_id).params match add (ground arith)

  abbrev Target : Tables H X → FwdAction → ℕ → Type 0
  Target p to_port id = id < p.n_ports_out
  Target p to_table id = id < p.n_tables
  Target p elsewhere id = Unit

  -- The port or table that an action forwards to is one that the pipeline has.
  abbrev pub IsInside : Tables H X → RuleAction X → Type 0
  IsInside p action = Target p action.fwd_action action.fwd_id

  fwd_target-Target :
      (p : Tables H X) (f : FwdAction) (id : ℕ) → fwd_target p f id ≡ true → Target p f id
  fwd_target-Target p to_port id h = ground arith
  fwd_target-Target p to_table id h = ground arith
  fwd_target-Target p elsewhere id h = tt

  -- An action with the bit for forwarding that `action_check` lets pass forwards to no port and no
  -- table that the pipeline lacks.
  pub action_check-IsInside :
      (action : RuleAction X) (p : Tables H X) (table_id : ℕ)
      → action.action_mask fwd ≡ true
      → action_check action p table_id ≡ some true
      → IsInside p action
  unfolding action_check
  action_check-IsInside action p table_id w h = elim (Bool-cases (ltb table_id p.n_tables)) [
    | inr e ↦ absurd (ground arith)
    | inl e ↦ elim (Option-cases (p.table table_id).profile) [
      | inl e' ↦ absurd (ground arith)
      | inr (ap, e') ↦
          fwd_target-Target p action.fwd_action action.fwd_id
            (middle _ _ _ _ (some-injective _ _ (rw (e, e', action_check) at h)) w)
    ]
  ]

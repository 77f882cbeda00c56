-- ===== src/Tmgr/Profiles.antt =====
-- The arrays of profiles and their missing bound.
use mathlib.Core.List.{append-nil, append_assoc}
use rids.Prelude.{
  Bool-cases, inl, inr, ◌+◌, ◌≤◌, ◌≡◌, refl, List, [], ◌∷◌, ◌++◌, Option, none, some, arith, ltb,
  if◌then◌else◌, length, length-append, ok,
}
use rids.Tmgr.{Tmgr, tmgr_subport_profile_add, subport_profile_max}

module _ {S P : Type 0} where
  -- The subport profiles of a list are added one after the other.
  pub add_subport_profiles : List S → Tmgr S P → Option (Tmgr S P)
  unfolding tmgr_subport_profile_add
  add_subport_profiles [] st = some st
  add_subport_profiles (p ∷ ps) st = elim (tmgr_subport_profile_add (some p) st) [
    | none ↦ none
    | some (st', status) ↦ add_subport_profiles ps st'
  ]

  subport_profile_add_room :
      (p : S) (st : Tmgr S P)
      → tmgr_subport_profile_add (some p) st ≡ (
          if ltb (length st.subport_profile) subport_profile_max
          then some (record st { subport_profile = st.subport_profile ++ p ∷ [] }, ok tt)
          else none)
  unfolding tmgr_subport_profile_add
  subport_profile_add_room p st = refl

  -- Profiles are stored in the order of their calls while the array has room; the profile behind the
  -- last place, the 257th of a new list, is written past the end of the array.
  pub add_subport_profiles_lem :
      (ps : List S) (st : Tmgr S P)
      → length st.subport_profile ≤ subport_profile_max
      → add_subport_profiles ps st ≡ (
          if ltb subport_profile_max (length st.subport_profile + length ps)
          then none
          else some (record st { subport_profile = st.subport_profile ++ ps }))
  unfolding add_subport_profiles
  add_subport_profiles_lem [] st h = ground (arith, append-nil st.subport_profile)
  add_subport_profiles_lem (p ∷ ps) st h =
      elim (Bool-cases (ltb (length st.subport_profile) subport_profile_max)) [
        | inl e ↦
            let st' = record st { subport_profile = st.subport_profile ++ p ∷ [] } in
            let longer : length (st.subport_profile ++ p ∷ []) ≡ length st.subport_profile + 1 =
              length-append st.subport_profile (p ∷ []) in
            let rest = add_subport_profiles_lem ps st' (ground arith) in
            ground (arith, rest, longer, append_assoc st.subport_profile (p ∷ []) ps)
        | inr e ↦ ground arith
      ]

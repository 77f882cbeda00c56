-- ===== src/Tap/Creates.antt =====
-- Every branch of `tap_create`.
use rids.Prelude.{
  ℕ, refl, ap, Bool, List, Option, none, some, take, Bool-cases, Option-cases, inl, inr,
}
use rids.Registry.{is_some, is_negative, search_list}
use rids.Registry.Resources.{release-acquire}
use rids.Registry.Creation.{Objects, Creates, IsWell, IsShort, add_node-Creates, Creates-IsWell}
use rids.Tap.{Tap, Kernel, tap_create}

-- `tap_create` either changes nothing, with the descriptor closed again if it was opened, or adds
-- one interface at the tail under a name that was not in use, with the one new descriptor as its own.
pub tap_create-Creates :
    (kernel : Kernel) (calloc : Bool) (name : Option (List ℕ)) (st : Objects Tap)
    → Creates (λ (x : Tap). x.name) (λ x. x.fd) name st (tap_create kernel calloc name st)
unfolding tap_create
tap_create-Creates kernel calloc none st = refl
tap_create-Creates kernel calloc (some name) st =
    elim (Bool-cases (is_some (search_list (λ (x : Tap). x.name) name st.nodes))) [
      | inl e ↦ rw e refl
      | inr e ↦ elim (Option-cases kernel.open_tap) [
        | inl e' ↦ rw (e, e') refl
        | inr (fd, e') ↦ elim (Bool-cases (is_negative (kernel.set_interface fd (take 15 name)))) [
          | inl s ↦
              rw (e, e', s)
                (ap (λ live. record { nodes = st.nodes; live = live }) (release-acquire fd st.live))
          | inr s ↦
              rw (e, e', s)
                (add_node-Creates (λ (x : Tap). x.name) (λ x. x.fd) calloc name _ st e refl)
        ]
      ]
    ]

-- A creation under a name that fits keeps the interfaces well formed: names distinct, and the open
-- descriptors exactly those of the list.
pub tap_create-IsWell :
    (kernel : Kernel) (calloc : Bool) (name : Option (List ℕ)) (st : Objects Tap)
    → IsShort name
    → IsWell (λ (x : Tap). x.name) (λ x. x.fd) st
    → IsWell (λ (x : Tap). x.name) (λ x. x.fd) (tap_create kernel calloc name st).0
tap_create-IsWell kernel calloc name st =
    Creates-IsWell (λ (x : Tap). x.name) (λ x. x.fd) name st _
      (tap_create-Creates kernel calloc name st)

-- ===== src/Tap.antt =====
-- processing/dpdk_pipeline/tap.c and tap.h: TAP interfaces, as built for Linux.
pub mod Creates
use rids.Prelude.{ℕ, ◌-◌, Bool, true, false, List, Option, none, some, if◌then◌else◌, take}
use rids.Registry.{RteStatus, is_some, is_negative, stored_name, find}
use rids.Registry.Resources.{acquire, release}
use rids.Registry.Creation.{Objects, add_node, empty}

pub record Tap : Type 0 where
  pub name : List ℕ
  pub fd : ℕ

abbrev pub tap_init : Objects Tap
tap_init = empty

unfoldable pub tap_find : Option (List ℕ) → List Tap → Option Tap
unfolding find
tap_find = find (λ tap. tap.name)

-- IFNAMSIZ of linux/if.h
abbrev ifnamsiz : ℕ
ifnamsiz = 16

-- open(TAP_DEV, O_RDWR | O_NONBLOCK), `none` for a negative descriptor, and the request TUNSETIFF
-- for an interface of a name.
pub record Kernel : Type 0 where
  pub open_tap : Option ℕ
  pub set_interface : ℕ → List ℕ → RteStatus

unfoldable pub tap_create : Kernel → Bool → Option (List ℕ) → Objects Tap → Objects Tap × Option Tap
unfolding tap_find add_node release
tap_create kernel calloc none st = (st, none)
tap_create kernel calloc (some name) st =
    if is_some (tap_find (some name) st.nodes) then (st, none) else elim kernel.open_tap [
      | none ↦ (st, none)
      | some fd ↦
          if is_negative (kernel.set_interface fd (take (ifnamsiz - 1) name))
          then (record st { live = release fd (acquire fd st.live) }, none)
          else add_node calloc fd (record { name = stored_name name; fd = fd }) st
    ]

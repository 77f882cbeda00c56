-- ===== src/Registry/Resources.antt =====
-- The objects that DPDK or the kernel has handed out and not taken back, newest first. A handle is
-- a number: the address or the descriptor.
use rids.Prelude.{ℕ, ◌≡◌, refl, Option, none, some, List, [], ◌∷◌, arith, ◌==◌, if◌then◌else◌}

abbrev pub acquire : ℕ → List ℕ → List ℕ
acquire r live = r ∷ live

unfoldable pub release : ℕ → List ℕ → List ℕ
release r [] = []
release r (x ∷ live) = if x == r then live else x ∷ release r live

-- What has just been acquired is released without a trace.
pub release-acquire : (r : ℕ) (live : List ℕ) → release r (acquire r live) ≡ live
unfolding release
release-acquire r live = ground arith

-- The same for a pointer that may be null.
abbrev pub hold : Option ℕ → List ℕ → List ℕ
hold none live = live
hold (some r) live = acquire r live

abbrev pub free_handle : Option ℕ → List ℕ → List ℕ
free_handle none live = live
free_handle (some r) live = release r live

pub free_handle-hold :
    (handle : Option ℕ) (live : List ℕ) → free_handle handle (hold handle live) ≡ live
free_handle-hold none live = refl
free_handle-hold (some r) live = release-acquire r live

-- ===== src/Rules/Calls/Bulk/Kept.antt =====
-- The rules of a list that is added, and the entries of the data plane.
use rids.Prelude.{ℕ, ◌≡◌, false, Option, some}
use rids.Rules.Match.{Match, match_equality}
use rids.Rules.Convert.{MatchLl, match_convert}
use rids.Rules.Convert.Keys.{IsRaw}
use rids.Rules.Calls.{DataPlane, Control}
use rids.Rules.Calls.Entries.{IsTableApi}
use rids.Rules.Calls.Agreement.{Agrees}

module _ {H X T E K : Type 0} (dp : DataPlane X T E) (norm : ℕ → MatchLl → K)
    (contents : T → ℕ → K → Option ℕ) (api : IsTableApi dp norm contents) (Good : Match → Type 0)
    (plain : (m : Match) → Good m → ¬ IsRaw m)
    (apart : (i : ℕ) (m m' : Match) (k k' : MatchLl)
      → Good m
      → Good m'
      → match_convert m false ≡ some k
      → match_convert m' false ≡ some k'
      → norm i k ≡ norm i k'
      → m ≡ m') where
  abbrev Kept : Control H X T → Type 0
  Kept = Agrees dp norm contents api Good plain apart

-- ===== src/Rules/Calls/Entries.antt =====
-- The tables of DPDK as the calls use them, and what an addition does to their entries.
use rids.Prelude.{
  ℕ, ◌≡◌, ◌≢◌, refl, sym, subst, ◌∙◌, ◌⊎◌, inl, inr, true, false, Option, none, some, Bool-cases,
  Option-cases, List, [], ◌∷◌, length,
}
use mathlib.Core.Option.{some-injective}
use rids.Registry.{is_nonzero}
use rids.Rules.{Rule}
use rids.Rules.Match.{Match, match_equality}
use rids.Rules.Convert.{MatchLl, match_convert}
use rids.Rules.Convert.Keys.{delete_key, IsRaw, match_convert-delete_key}
use rids.Rules.Check.{RuleAction}
use rids.Rules.Calls.{
  DataPlane, action_convert, added, add_stopped, pipeline_msg_handle_table_rule_add,
}

abbrev pub entry_of : {X : Type 0} → Option (Rule Match (RuleAction X)) → Option ℕ
entry_of none = none
entry_of (some r) = some r.entry

module _ {T K : Type 0} (norm : ℕ → MatchLl → K) (contents : T → ℕ → K → Option ℕ) where
  -- A table has an entry under one key, and is as another otherwise.
  abbrev pub Stores : ℕ → MatchLl → ℕ → T → T → Type 0
  Stores i k handle t t' =
      (contents t' i (norm i k) ≡ some handle)
      × ((i' : ℕ) (x : K) → (i' ≢ i) ⊎ (x ≢ norm i k) → contents t' i' x ≡ contents t i' x)

  -- The first entries of a list are stored one after the other, under these handles.
  abbrev pub Chain : {E : Type 0} → ℕ → T → List (MatchLl × E) → List ℕ → T → Type 0
  Chain i t entries [] t' = contents t' ≡ contents t
  Chain i t [] (handle ∷ handles) t' = ⊥
  Chain i t ((k, e) ∷ entries) (handle ∷ handles) t' =
      (t1 : T) × Stores i (delete_key k) handle t t1 × Chain i t1 entries handles t'

-- What DPDK documents of its tables. `norm i k` is what table `i` takes of a key `k`: an LPM table the
-- prefix without the bits behind it, a hash table the bytes of its key size under its mask, an array
-- table the position. Keys with the same are the key of one entry, and `contents` gives its handle. A
-- call that fails changes nothing; one that succeeds changes the entry of its key, and no other. The
-- addition of several entries stores them all, as if one after the other, or changes nothing.
pub record IsTableApi {X T E K : Type 0} (dp : DataPlane X T E) (norm : ℕ → MatchLl → K)
    (contents : T → ℕ → K → Option ℕ) : Type 0 where
  pub add_fails :
      (t : T) (i : ℕ) (k : MatchLl) (e : E)
      → is_nonzero (dp.entry_add t i k e).1 ≡ true
      → contents (dp.entry_add t i k e).0 ≡ contents t
  pub add_stores :
      (t : T) (i : ℕ) (k : MatchLl) (e : E)
      → is_nonzero (dp.entry_add t i k e).1 ≡ false
      → contents (dp.entry_add t i k e).0 i (norm i (delete_key k)) ≡ some (dp.entry_add t i k e).2
  pub add_keeps :
      (t : T) (i : ℕ) (k : MatchLl) (e : E) (i' : ℕ) (x : K)
      → (i' ≢ i) ⊎ (x ≢ norm i (delete_key k))
      → contents (dp.entry_add t i k e).0 i' x ≡ contents t i' x
  pub delete_fails :
      (t : T) (i : ℕ) (k : MatchLl)
      → is_nonzero (dp.entry_delete t i k).1 ≡ true
      → contents (dp.entry_delete t i k).0 ≡ contents t
  pub delete_removes :
      (t : T) (i : ℕ) (k : MatchLl)
      → is_nonzero (dp.entry_delete t i k).1 ≡ false
      → contents (dp.entry_delete t i k).0 i (norm i k) ≡ none
  pub delete_keeps :
      (t : T) (i : ℕ) (k : MatchLl) (i' : ℕ) (x : K)
      → (i' ≢ i) ⊎ (x ≢ norm i k)
      → contents (dp.entry_delete t i k).0 i' x ≡ contents t i' x
  pub bulk_fails :
      (t : T) (i : ℕ) (entries : List (MatchLl × E))
      → is_nonzero (dp.entry_add_bulk t i entries).1 ≡ true
      → contents (dp.entry_add_bulk t i entries).0 ≡ contents t
  pub bulk_stores :
      (t : T) (i : ℕ) (entries : List (MatchLl × E))
      → is_nonzero (dp.entry_add_bulk t i entries).1 ≡ false
      → (length (dp.entry_add_bulk t i entries).2 ≡ length entries)
        × Chain norm contents i t entries
            (dp.entry_add_bulk t i entries).2
            (dp.entry_add_bulk t i entries).0

module _ {X T E K : Type 0} (dp : DataPlane X T E) (norm : ℕ → MatchLl → K)
    (contents : T → ℕ → K → Option ℕ) (api : IsTableApi dp norm contents) (Good : Match → Type 0)
    (plain : (m : Match) → Good m → ¬ IsRaw m) where
  -- What an addition to the lower half comes to.
  abbrev pub AddsEntry : T → ℕ → MatchLl → T × Option ℕ → Type 0
  AddsEntry t i k (t', none) = contents t' ≡ contents t
  AddsEntry t i k (t', some handle) = Stores norm contents i k handle t t'

  added-AddsEntry :
      (t : T) (i : ℕ) (k : MatchLl) (e : E)
      → AddsEntry t i (delete_key k) (added dp (dp.entry_add t i k e))
  added-AddsEntry t i k e = elim (Bool-cases (is_nonzero (dp.entry_add t i k e).1)) [
    | inl f ↦ rw f (api.add_fails t i k e f)
    | inr f ↦ rw f (api.add_stores t i k e f, api.add_keeps t i k e)
  ]

  pub add_stopped-AddsEntry :
      (t : T) (a : Option ℕ) (i : ℕ) (m : Match) (action : RuleAction X) (k : MatchLl)
      → Good m
      → match_convert m false ≡ some k
      → AddsEntry t i k (add_stopped dp t a i m action)
  unfolding add_stopped
  add_stopped-AddsEntry t a i m action k g h = elim (Option-cases (match_convert m true)) [
    | inl e ↦
        let result : add_stopped dp t a i m action ≡ (t, none) = rw (e, add_stopped) refl in
        subst (AddsEntry t i k) (sym result) refl
    | inr (key, e) ↦
        let k-eq : delete_key key ≡ k =
          some-injective _ _ (sym (match_convert-delete_key m key (plain m g) e) ∙ h) in
        let entry : E = (action_convert dp a action).0 in
        elim (Bool-cases (is_nonzero (action_convert dp a action).1)) [
          | inl e' ↦
              let result : add_stopped dp t a i m action ≡ (t, none) =
                rw (e, e', add_stopped) refl in
              subst (AddsEntry t i k) (sym result) refl
          | inr e' ↦
              let result : add_stopped dp t a i m action ≡ added dp (dp.entry_add t i key entry) =
                rw (e, e', add_stopped) refl in
              subst (AddsEntry t i k) (sym result) (
                subst (λ z. AddsEntry t i z (added dp (dp.entry_add t i key entry))) k-eq
                  (added-AddsEntry t i key entry))
        ]
  ]

  -- The main thread and a running thread do the same with a rule that is added.
  pub handle_add-eq-add_stopped :
      (t : T) (a : Option ℕ) (i : ℕ) (m : Match) (action : RuleAction X)
      → pipeline_msg_handle_table_rule_add dp t a i m action ≡ add_stopped dp t a i m action
  unfolding pipeline_msg_handle_table_rule_add add_stopped
  handle_add-eq-add_stopped t a i m action = refl

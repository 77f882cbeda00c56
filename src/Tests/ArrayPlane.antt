-- ===== src/Tests/ArrayPlane.antt =====
-- A small data plane, of array tables, and a pipeline with one table.
use rids.Prelude.{
  suc, subst, Option-cases, List, length, ℕ, ◌+◌, ◌≡◌, ◌≢◌, refl, sym, ◌∙◌, ap, ◌⊎◌, inl, inr, Bool,
  true, false, ◌&&◌, [], ◌∷◌, Option, none, some, ◌==◌, if◌then◌else◌, arith, Bool-cases,
}
use rids.Registry.{RteStatus, success, negative, is_nonzero}
use rids.Rules.{find_rule}
use rids.Rules.Match.{Match, acl, acl_raw, array, hash, lpm, stub, match_equality}
use rids.Rules.Convert.{MatchLl, array_key, match_convert}
use rids.Rules.Convert.Keys.{IsRaw, delete_key}
use rids.Rules.Check.{array_params, RuleAction, to_port, only_fwd}
use rids.Rules.Calls.{DataPlane, Control, Env}
use rids.Rules.Calls.Entries.{Chain, IsTableApi}
use rids.Rules.Calls.Agreement.{Agrees}

-- The entries of array tables only; every addition and deletion of an array key succeeds.
-- An array table takes the position of a key; keys of other kinds are all the same to it.
abbrev pub norm : ℕ → MatchLl → Option ℕ
norm i (array_key p) = some p
norm i _ = none

abbrev pub Entries : Type 0
Entries = ℕ → ℕ → Option ℕ

abbrev pub put : Entries → ℕ → ℕ → Option ℕ → Entries
put t i p v i' p' = if i' == i && p' == p then v else t i' p'

abbrev pub entry_add : Entries → ℕ → MatchLl → ℕ → Entries × RteStatus × ℕ
entry_add t i (array_key p) e = (put t i p (some (100 + e)), success, 100 + e)
entry_add t i _ e = (t, negative, 0)

abbrev pub entry_delete : Entries → ℕ → MatchLl → Entries × RteStatus
entry_delete t i (array_key p) = (put t i p none, success)
entry_delete t i _ = (t, negative)

-- Several entries, if all keys are array keys.
abbrev pub add_all : Entries → ℕ → List (MatchLl × ℕ) → Option (Entries × List ℕ)
add_all t i [] = some (t, [])
add_all t i ((array_key p, e) ∷ entries) = elim (add_all (put t i p (some (100 + e))) i entries) [
  | none ↦ none
  | some (t', handles) ↦ some (t', (100 + e) ∷ handles)
]
add_all t i ((k, e) ∷ entries) = none

abbrev pub bulk_result : Entries → Option (Entries × List ℕ) → Entries × RteStatus × List ℕ
bulk_result t none = (t, negative, [])
bulk_result t (some (t', handles)) = (t', success, handles)

abbrev pub contents : Entries → ℕ → Option ℕ → Option ℕ
contents t i (some p) = t i p
contents t i none = none

abbrev pub data_plane : DataPlane ℕ Entries ℕ
data_plane = record {
  blank = 0;
  apply = λ a e kind action. (e + action.others, success);
  entry_add = entry_add;
  entry_add_bulk = λ t i entries. bulk_result t (add_all t i entries);
  entry_delete = entry_delete;
  default_entry_add = λ t i f id. (t, success, 50);
  default_entry_delete = λ t i. (t, success);
}

some_inv : {A : Type 0} {a b : A} → some a ≡ some b → a ≡ b
some_inv q = cc

put_same : (t : Entries) (i p : ℕ) (v : Option ℕ) → put t i p v i p ≡ v
put_same t i p v = ground arith

put_other :
    (t : Entries) (i p i' p' : ℕ) (v : Option ℕ)
    → (i' ≢ i) ⊎ (some p' ≢ some p)
    → put t i p v i' p' ≡ t i' p'
put_other t i p i' p' v d = elim (Bool-cases (i' == i && p' == p)) [
  | inr e ↦ rw e refl
  | inl e ↦
      let same_table : i' ≡ i = ground arith in
      let same_position : p' ≡ p = ground arith in
      elim d [ inl n ↦ absurd (n same_table) | inr n ↦ absurd (n (ap some same_position)) ]
]

add_all-Chain :
    (t : Entries) (i : ℕ) (entries : List (MatchLl × ℕ)) (t' : Entries) (handles : List ℕ)
    → add_all t i entries ≡ some (t', handles)
    → (length handles ≡ length entries) × Chain norm contents i t entries handles t'
add_all-Chain t i [] t' [] h = (refl, ap (λ r. contents r.0) (sym (some_inv h)))
add_all-Chain t i [] t' (handle ∷ handles) h = cc
add_all-Chain t i ((array_key p, e) ∷ entries) t' handles h =
    elim (Option-cases (add_all (put t i p (some (100 + e))) i entries)) [
      | inl q ↦ absurd (none_some (rw (q, add_all) at h))
      | inr ((t2, rest), q) ↦
          let (l, chain) = add_all-Chain (put t i p (some (100 + e))) i entries t2 rest q in
          let chain' : Chain norm contents i t ((array_key p, e) ∷ entries) ((100 + e) ∷ rest) t2 =
            (put t i p (some (100 + e)), (put_same t i p (some (100 + e)), other), chain) in
          let both : Stored (t2, (100 + e) ∷ rest) = (ap suc l, chain') in
          let stored : Path (Entries × List ℕ) (t2, (100 + e) ∷ rest) (t', handles) =
            some_inv (rw (q, add_all) at h) in
          subst Stored stored both
    ]
  where
    none_some : {A : Type 0} {a : A} → none ≡ some a → ⊥
    none_some q = cc

    Stored : Entries × List ℕ → Type 0
    Stored (t', handles) =
        (length handles ≡ suc (length entries))
        × Chain norm contents i t ((array_key p, e) ∷ entries) handles t'

    other :
        (i' : ℕ) (x : Option ℕ)
        → (i' ≢ i) ⊎ (x ≢ some p)
        → contents (put t i p (some (100 + e))) i' x ≡ contents t i' x
    other i' none d = refl
    other i' (some p') d = put_other t i p i' p' (some (100 + e)) d
add_all-Chain t i ((_, e) ∷ entries) t' handles h = absurd (ground arith)

pub data_plane-IsTableApi : IsTableApi data_plane norm contents
data_plane-IsTableApi = record {
  add_fails = add_fails;
  add_stores = add_stores;
  add_keeps = add_keeps;
  delete_fails = delete_fails;
  delete_removes = delete_removes;
  delete_keeps = delete_keeps;
  bulk_fails = bulk_fails;
  bulk_stores = bulk_stores;
}
  where
    bulk_fails :
        (t : Entries) (i : ℕ) (entries : List (MatchLl × ℕ))
        → is_nonzero (bulk_result t (add_all t i entries)).1 ≡ true
        → contents (bulk_result t (add_all t i entries)).0 ≡ contents t
    bulk_fails t i entries h = elim (Option-cases (add_all t i entries)) [
      | inl e ↦ rw (e, add_all) refl
      | inr (r, e) ↦ absurd (true_false (rw (e, add_all) at h))
    ]
      where
        true_false : is_nonzero success ≡ true → ⊥
        true_false q = cc

    bulk_stores :
        (t : Entries) (i : ℕ) (entries : List (MatchLl × ℕ))
        → is_nonzero (bulk_result t (add_all t i entries)).1 ≡ false
        → (length (bulk_result t (add_all t i entries)).2 ≡ length entries)
          × Chain norm contents i t entries
              (bulk_result t (add_all t i entries)).2
              (bulk_result t (add_all t i entries)).0
    bulk_stores t i entries h = elim (Option-cases (add_all t i entries)) [
      | inl e ↦ absurd (true_false (rw (e, add_all) at h))
      | inr ((t', handles), e) ↦ rw (e, add_all) (add_all-Chain t i entries t' handles e)
    ]
      where
        true_false : is_nonzero negative ≡ false → ⊥
        true_false q = cc

    add_fails :
        (t : Entries) (i : ℕ) (k : MatchLl) (e : ℕ)
        → is_nonzero (entry_add t i k e).1 ≡ true
        → contents (entry_add t i k e).0 ≡ contents t
    add_fails t i (array_key p) e h = cc
    add_fails t i _ e h = refl

    add_stores :
        (t : Entries) (i : ℕ) (k : MatchLl) (e : ℕ)
        → is_nonzero (entry_add t i k e).1 ≡ false
        → contents (entry_add t i k e).0 i (norm i (delete_key k)) ≡ some (entry_add t i k e).2
    add_stores t i (array_key p) e h = put_same t i p (some (100 + e))
    add_stores t i _ e h = cc

    add_keeps :
        (t : Entries) (i : ℕ) (k : MatchLl) (e i' : ℕ) (x : Option ℕ)
        → (i' ≢ i) ⊎ (x ≢ norm i (delete_key k))
        → contents (entry_add t i k e).0 i' x ≡ contents t i' x
    add_keeps t i (array_key p) e i' none d = refl
    add_keeps t i (array_key p) e i' (some p') d = put_other t i p i' p' (some (100 + e)) d
    add_keeps t i _ e i' k' d = refl

    delete_fails :
        (t : Entries) (i : ℕ) (k : MatchLl)
        → is_nonzero (entry_delete t i k).1 ≡ true
        → contents (entry_delete t i k).0 ≡ contents t
    delete_fails t i (array_key p) h = cc
    delete_fails t i _ h = refl

    delete_removes :
        (t : Entries) (i : ℕ) (k : MatchLl)
        → is_nonzero (entry_delete t i k).1 ≡ false
        → contents (entry_delete t i k).0 i (norm i k) ≡ none
    delete_removes t i (array_key p) h = put_same t i p none
    delete_removes t i _ h = refl

    delete_keeps :
        (t : Entries) (i : ℕ) (k : MatchLl) (i' : ℕ) (x : Option ℕ)
        → (i' ≢ i) ⊎ (x ≢ norm i k)
        → contents (entry_delete t i k).0 i' x ≡ contents t i' x
    delete_keeps t i (array_key p) i' none d = refl
    delete_keeps t i (array_key p) i' (some p') d = put_other t i p i' p' none d
    delete_keeps t i _ i' k' d = refl

abbrev pub IsArray : Match → Type 0
IsArray (array pos) = Unit
IsArray _ = ⊥

pub plain : (m : Match) → IsArray m → ¬ IsRaw m
plain (array pos) g = λ h. h
plain (acl m) g = absurd g
plain (acl_raw m) g = absurd g
plain (hash key) g = absurd g
plain (lpm address depth) g = absurd g
plain stub g = absurd g

pub apart :
    (i : ℕ) (m m' : Match) (k k' : MatchLl)
    → IsArray m
    → IsArray m'
    → match_convert m false ≡ some k
    → match_convert m' false ≡ some k'
    → norm i k ≡ norm i k'
    → m ≡ m'
unfolding match_convert
apart i (array p) (array p') k k' g g' h h' e =
    let k-eq : array_key p ≡ k = some_inv h in
    let k'-eq : array_key p' ≡ k' = some_inv h' in
    ap array (some_inv (ap (norm i) k-eq ∙ e ∙ ap (norm i) (sym k'-eq)))
apart i _ _ k k' g g' h h' e = absurd (ground arith)

-- One table of 16 keys, with a profile of forwarding only, and two ports.
abbrev pub two_ports : Control ℕ ℕ Entries
two_ports = record {
  tables = record {
    n_ports_out = 2;
    n_tables = 1;
    table = λ i. record {
      params = array_params 16 0;
      profile = some (record {
        name = 65 ∷ [];
        params = record {
          action_mask = only_fwd;
          lb_config = record { key_size = 8; f_hash = none; seed = 0 };
          other_configs = record {
            n_tc = 1;
            n_subports_per_port = 1;
            n_pipes_per_subport = 1;
            encap_mask = λ type. false;
            ip_version = 1;
            n_packets_enabled = true;
          };
        };
        ap = 9;
      });
      a = some 3;
      rule_table = record { rules = []; rule_default = none };
    };
  };
  lower = λ i p. none;
}

abbrev pub to_port_1 : RuleAction ℕ
to_port_1 = record {
  action_mask = only_fwd;
  fwd_action = to_port;
  fwd_id = 1;
  tc_mask = 0;
  subport_id = 0;
  pipe_id = 0;
  encap_type = 0;
  nat_ip_version = 0;
  others = 7;
}

abbrev pub Kept : Control ℕ ℕ Entries → Type 0
Kept = Agrees data_plane norm contents data_plane-IsTableApi IsArray plain apart

pub two_ports-Kept : Kept two_ports
unfolding find_rule
two_ports-Kept = record { distinct = λ i. tt; entries = λ i m k g h. no_entry i (norm i k) }
  where
    no_entry : (i : ℕ) (x : Option ℕ) → contents (λ i' p. none) i x ≡ none
    no_entry i (some p) = refl
    no_entry i none = refl

abbrev pub ready : Bool → Env
ready running = record {
  running = running;
  rule_alloc = true;
  work_alloc = true;
  table_data = λ i. some 3;
}

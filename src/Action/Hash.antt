-- ===== src/Action/Hash.antt =====
-- action.c: the load balancing part of both kinds of profiles, and the registrations of actions.
use rids.Prelude.{
  ℕ, ◌≡◌, refl, Bool, true, false, ◌||◌, List, [], ◌∷◌, Option, none, some, ◌==◌, if◌then◌else◌,
  arith, ◌⊎◌, inl, inr, Bool-cases, Option-cases,
}
use rids.Registry.{RteStatus, is_nonzero}

-- A hash function: rte_table_hash_crc_key8 to _key64 by the size of their keys, or one of the caller.
pub data HashFunction : Type 0 where
  crc_key : ℕ → HashFunction
  given : ℕ → HashFunction

pub record LbConfig : Type 0 where
  pub key_size : ℕ
  pub f_hash : Option HashFunction
  pub seed : ℕ

abbrev pub has_crc : ℕ → Bool
has_crc n = n == 8 || n == 16 || n == 24 || n == 32 || n == 40 || n == 48 || n == 56 || n == 64

-- The switch on the size of the key, where load balancing is asked for without a hash function;
-- `none` is the default case, which returns NULL. The source writes the function and the seed into
-- the caller's parameters, also where the creation fails later; here they are given back only.
pub choose_hash : Bool → LbConfig → Option LbConfig
choose_hash false lb = some lb
choose_hash true lb = elim lb.f_hash [
  | some f ↦ some lb
  | none ↦
      if has_crc lb.key_size
      then some (record lb { f_hash = some (crc_key lb.key_size); seed = 0 })
      else none
]

-- With load balancing the profile has a hash function, for keys of the size that is configured.
abbrev pub HasHash : Bool → LbConfig → LbConfig → Type 0
HasHash wanted before after =
    (wanted ≡ false → after ≡ before)
    × (after.key_size ≡ before.key_size)
    × (wanted ≡ true
        → ((f : HashFunction) × (before.f_hash ≡ some f) × (after ≡ before))
          ⊎ ((before.f_hash ≡ none)
              × (has_crc before.key_size ≡ true)
              × (after.f_hash ≡ some (crc_key before.key_size))
              × (after.seed ≡ 0)))

pub choose_hash-HasHash :
    (wanted : Bool) (before after : LbConfig)
    → choose_hash wanted before ≡ some after
    → HasHash wanted before after
unfolding choose_hash
choose_hash-HasHash false before after h =
    (λ e. ground arith, ground arith, λ e. absurd (ground arith))
choose_hash-HasHash true before after h = elim (Option-cases before.f_hash) [
  | inr (f, e) ↦ (λ w. absurd (ground arith), ground arith, λ w. inl (f, e, ground arith))
  | inl e ↦ elim (Bool-cases (has_crc before.key_size)) [
    | inl k ↦
        (λ w. absurd (ground arith), ground arith, λ w. inr (e, k, ground arith, ground arith))
    | inr k ↦ absurd (ground arith)
  ]
]

-- One call of _action_register for each action of the list that the mask has, in order, up to the
-- first that fails; the calls that succeeded, and whether all did.
module _ {A : Type 0} (mask : A → Bool) (register : A → RteStatus) where
  pub register_actions : List A → List A × Bool
  register_actions [] = ([], true)
  register_actions (a ∷ rest) =
      let (calls, done) = register_actions rest in
      if mask a
      then (if is_nonzero (register a) then ([], false) else (a ∷ calls, done))
      else (calls, done)

-- The actions of the list that the mask has.
pub selected : {A : Type 0} → (A → Bool) → List A → List A
selected mask [] = []
selected mask (a ∷ rest) = if mask a then a ∷ selected mask rest else selected mask rest

pub register_actions-selected :
    {A : Type 0} (mask : A → Bool) (register : A → RteStatus) (l : List A)
    → (register_actions mask register l).1 ≡ true
    → (register_actions mask register l).0 ≡ selected mask l
unfolding register_actions selected
register_actions-selected mask register [] h = refl
register_actions-selected mask register (a ∷ l) h =
    ground (arith, register_actions-selected mask register l)

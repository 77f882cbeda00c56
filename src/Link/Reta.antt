-- ===== src/Link/Reta.antt =====
-- The redirection table that `rss_setup` writes.
use rids.Prelude.{
  ℕ, zero, suc, ◌+◌, ◌-◌, ◌/◌, ◌%◌, ◌^◌, ◌≤◌, ◌<◌, ◌≡◌, refl, ap, ◌∙◌, inl, inr, true, false, ◌&&◌,
  ltb, leb, ◌==◌, if◌then◌else◌, arith, Bool-cases,
}
use rids.Thread.{write}
use rids.Link.{LinkParamsRss, RetaGroup, set_masks, set_queues, reta_of}

abbrev pub entry_at : (ℕ → RetaGroup) → ℕ → ℕ
entry_at reta_conf k = (reta_conf (k / 64)).reta (k % 64)

abbrev pub mask_at : (ℕ → RetaGroup) → ℕ → ℕ
mask_at reta_conf k = (reta_conf (k / 64)).mask

write_hit : {A : Type 0} (a : ℕ → A) (i : ℕ) (v : A) (j : ℕ) → (j == i) ≡ true → write a i v j ≡ v
write_hit a i v j e = rw e refl

write_miss :
    {A : Type 0} (a : ℕ → A) (i : ℕ) (v : A) (j : ℕ) → (j == i) ≡ false → write a i v j ≡ a j
write_miss a i v j e = rw e refl

-- A write of a group that keeps or sets its mask.
write_mask :
    (reta_conf : ℕ → RetaGroup) (i k : ℕ) (group : RetaGroup) (v : ℕ)
    → mask_at reta_conf k ≡ v
    → group.mask ≡ v
    → mask_at (write reta_conf i group) k ≡ v
write_mask reta_conf i k group v old new = elim (Bool-cases (k / 64 == i)) [
  | inl e ↦ ap (λ (g : RetaGroup). g.mask) (write_hit reta_conf i group (k / 64) e) ∙ new
  | inr e ↦ ap (λ (g : RetaGroup). g.mask) (write_miss reta_conf i group (k / 64) e) ∙ old
]

-- A write of an entry.
write_entry :
    (reta_conf : ℕ → RetaGroup) (i k v : ℕ)
    → entry_at
        (write reta_conf
          (i / 64)
          (record (reta_conf (i / 64)) { reta = write (reta_conf (i / 64)).reta (i % 64) v }))
        k
      ≡ (if k == i then v else entry_at reta_conf k)
write_entry reta_conf i k v = elim (Bool-cases (k / 64 == i / 64)) [
  | inr e ↦
      let e' : (k == i) ≡ false = ground arith in
      ap (λ (g : RetaGroup). g.reta (k % 64)) (write_miss reta_conf (i / 64) _ (k / 64) e)
      ∙ rw e' refl
  | inl e ↦
      let group : i / 64 ≡ k / 64 = ground arith in
      ap (λ (g : RetaGroup). g.reta (k % 64)) (write_hit reta_conf (i / 64) _ (k / 64) e)
      ∙ (elim (Bool-cases (k % 64 == i % 64)) [
        | inl f ↦
            let f' : (k == i) ≡ true = ground arith in
            write_hit (reta_conf (i / 64)).reta (i % 64) v (k % 64) f ∙ rw f' refl
        | inr f ↦
            let f' : (k == i) ≡ false = ground arith in
            write_miss (reta_conf (i / 64)).reta (i % 64) v (k % 64) f
            ∙ ap (λ g. (reta_conf g).reta (k % 64)) group
            ∙ rw f' refl
      ])
]

set_queues-entry_at :
    (n i : ℕ) (rss : LinkParamsRss) (reta_conf : ℕ → RetaGroup) (k : ℕ)
    → entry_at (set_queues n i rss reta_conf) k ≡ (
        if leb i k && ltb k (i + n)
        then rss.queue_id (k % rss.n_queues) % 2 ^ 16
        else entry_at reta_conf k)
unfolding set_queues
set_queues-entry_at zero i rss reta_conf k =
    let e : (leb i k && ltb k (i + 0)) ≡ false = ground arith in rw e refl
set_queues-entry_at (suc n) i rss reta_conf k =
    let v = rss.queue_id (i % rss.n_queues) % 2 ^ 16 in
    set_queues-entry_at n (i + 1) rss _ k
    ∙ ap
        (λ z.
          if leb (i + 1) k && ltb k (i + 1 + n)
          then rss.queue_id (k % rss.n_queues) % 2 ^ 16
          else z)
        (write_entry reta_conf i k v)
    ∙ (elim (Bool-cases (k == i)) [
      | inl e ↦
          let a : (leb (i + 1) k && ltb k (i + 1 + n)) ≡ false = ground arith in
          let b : (leb i k && ltb k (i + suc n)) ≡ true = ground arith in
          let k-eq : i ≡ k = ground arith in
          rw (a, b, e) (ap (λ z. rss.queue_id (z % rss.n_queues) % 2 ^ 16) k-eq)
      | inr e ↦
          let a : (leb (i + 1) k && ltb k (i + 1 + n)) ≡ (leb i k && ltb k (i + suc n)) =
            ground arith in
          rw (e, a) refl
    ])

-- A write of an entry keeps the masks.
set_queues-mask_at :
    (n i : ℕ) (rss : LinkParamsRss) (reta_conf : ℕ → RetaGroup) (k : ℕ)
    → mask_at (set_queues n i rss reta_conf) k ≡ mask_at reta_conf k
unfolding set_queues
set_queues-mask_at zero i rss reta_conf k = refl
set_queues-mask_at (suc n) i rss reta_conf k =
    set_queues-mask_at n (i + 1) rss _ k ∙ (elim (Bool-cases (k / 64 == i / 64)) [
      | inl e ↦
          let group : i / 64 ≡ k / 64 = ground arith in
          ap (λ (g : RetaGroup). g.mask) (write_hit reta_conf (i / 64) _ (k / 64) e)
          ∙ ap (λ g. (reta_conf g).mask) group
      | inr e ↦ ap (λ (g : RetaGroup). g.mask) (write_miss reta_conf (i / 64) _ (k / 64) e)
    ])

set_masks-kept :
    (n i : ℕ) (reta_conf : ℕ → RetaGroup) (k : ℕ)
    → mask_at reta_conf k ≡ 2 ^ 64 - 1
    → mask_at (set_masks n i reta_conf) k ≡ 2 ^ 64 - 1
unfolding set_masks
set_masks-kept zero i reta_conf k h = h
set_masks-kept (suc n) i reta_conf k h =
    set_masks-kept n (i + 1) _ k (write_mask reta_conf (i / 64) k _ (2 ^ 64 - 1) h refl)

set_masks-mask_at :
    (n i : ℕ) (reta_conf : ℕ → RetaGroup) (k : ℕ)
    → i ≤ k
    → k < i + n
    → mask_at (set_masks n i reta_conf) k ≡ 2 ^ 64 - 1
unfolding set_masks
set_masks-mask_at zero i reta_conf k l m = absurd (omega arith)
set_masks-mask_at (suc n) i reta_conf k l m = elim (Bool-cases (k == i)) [
  | inl e ↦
      let hit : (k / 64 == i / 64) ≡ true = ground arith in
      set_masks-kept n (i + 1) _ k
        (ap (λ (g : RetaGroup). g.mask) (write_hit reta_conf (i / 64) _ (k / 64) hit))
  | inr e ↦ set_masks-mask_at n (i + 1) _ k (ground arith) (omega arith)
]

-- Every entry of the redirection table that `rss_setup` writes is enabled, and sends its packets to a
-- queue of the list in turn: entry `k` to the one at `k` modulo the number of queues.
pub reta_of-entry_at :
    (reta_size : ℕ) (rss : LinkParamsRss) (k : ℕ)
    → k < reta_size
    → (entry_at (reta_of reta_size rss) k ≡ rss.queue_id (k % rss.n_queues) % 2 ^ 16)
      × (mask_at (reta_of reta_size rss) k ≡ 2 ^ 64 - 1)
unfolding reta_of
reta_of-entry_at reta_size rss k l =
    let e : (leb 0 k && ltb k (0 + reta_size)) ≡ true = ground arith in
    (
      set_queues-entry_at reta_size 0 rss _ k ∙ rw e refl,
      set_queues-mask_at reta_size 0 rss _ k
          ∙ set_masks-mask_at reta_size 0 _ k (omega arith) (omega arith),
    )

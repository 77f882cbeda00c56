-- ===== src/Link/Creates.antt =====
-- Every branch of `link_create`.
use rids.Prelude.{
  ℕ, ◌≡◌, refl, subst, sym, Bool, false, ◌&&◌, ◌||◌, List, Option, none, some, ◌==◌, arith,
  Bool-cases, Option-cases, inl, inr,
}
use rids.Registry.{is_some, search_list}
use rids.Registry.Resources.{release-acquire}
use rids.Registry.Creation.{add_node-Creates, Objects, Creates}
use rids.Mempool.{Mempool, mempool_find}
use rids.Link.{
  Link, LinkParams, DevInfo, EthApi, rss_refused, link_up_refused, add_link, rss_fits, start_port,
  port_of, link_create,
}

abbrev pub CreatesLink : Option (List ℕ) → Objects Link → Objects Link × Option Link → Type 0
CreatesLink = Creates (λ link. link.name) (λ link. link.port_id)

add_link-Creates :
    (api : EthApi) (calloc : Bool) (name : List ℕ) (params : LinkParams) (info : DevInfo)
    (port_id : ℕ) (st : Objects Link)
    → is_some (search_list (λ (link : Link). link.name) name st.nodes) ≡ false
    → CreatesLink (some name) st (add_link api calloc name params info port_id st)
unfolding add_link
add_link-Creates api calloc name params info port_id st h =
    elim (Bool-cases
      (rss_refused api info port_id params.rss || link_up_refused (api.set_link_up port_id))) [
        | inl e ↦
            let result : add_link api calloc name params info port_id st
                ≡ (record st { live = st.live }, none) =
              rw (e, add_link)
                (λ i. (record st { live = release-acquire port_id st.live i }, none)) in
            subst (CreatesLink (some name) st) (sym result) refl
        | inr e ↦
            rw (e, add_link)
              (add_node-Creates (λ (link : Link). link.name) (λ link. link.port_id) calloc name _ st
                h refl)
      ]

-- `link_create` either changes nothing, and a port that it has started is stopped again, or adds one
-- link at the tail under a name that was not in use, over the one port that it has started.
pub link_create-Creates :
    (api : EthApi) (calloc : Bool) (name : Option (List ℕ)) (params : Option LinkParams)
    (mempools : List Mempool) (st : Objects Link)
    → CreatesLink name st (link_create api calloc name params mempools st)
unfolding link_create
link_create-Creates api calloc none params mempools st = refl
link_create-Creates api calloc (some name) none mempools st = refl
link_create-Creates api calloc (some name) (some params) mempools st =
    elim (Bool-cases (
      is_some (search_list (λ (link : Link). link.name) name st.nodes)
      || params.rx_n_queues == 0
      || params.rx_queue_size == 0
      || params.tx_n_queues == 0
      || params.tx_queue_size == 0)) [
        | inl e ↦ rw e refl
        | inr e ↦ elim (Option-cases (port_of api params)) [
          | inl p ↦ rw (e, p, link_create) refl
          | inr (port_id, p) ↦ elim (Option-cases (api.info_get port_id)) [
            | inl q ↦ rw (e, p, q, link_create) refl
            | inr (info, q) ↦ elim (Option-cases (mempool_find params.mempool_name mempools)) [
              | inl r ↦ rw (e, p, q, r, link_create) refl
              | inr (mempool, r) ↦
                  elim (Bool-cases
                    (rss_fits info params.rss && start_port api params info mempool.m port_id)) [
                      | inr s ↦ rw (e, p, q, r, s, link_create) refl
                      | inl s ↦
                          rw (e, p, q, r, s, link_create)
                            (add_link-Creates api calloc name params info port_id st (ground arith))
                    ]
            ]
          ]
        ]
      ]

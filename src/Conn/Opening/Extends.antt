-- ===== src/Conn/Opening/Extends.antt =====
-- What NewConfig and Extend of internal/conn/config.go return, and what they leave in the pool.
use gorums.Prelude.{
  ℕ, ◌≡◌, refl, Bool, true, ◌||◌, Option, none, some, List, [], ◌∷◌, map, nat_beq, is_some,
  contains, comparable_nat, arith, ap, sym, subst, ◌∙◌, if_both, if_case, Bool-cases, Option-cases,
  inl, inr,
}
use gorums.Prelude.Go.{panics, Returns}
use gorums.Conn.Config.{Node, SortFunc, by_id, has}
use gorums.Conn.Config.Algebra.{Sorts, IsPool, knows, has-sort, has-union}
use gorums.Conn.Pool.{no_nodes, Made, made, fails, Net, DialOptions, Pool, new_pool}
use gorums.Conn.Pool.Distinct.{IsPoolState, new-IsPoolState}
use gorums.Conn.Nodes.Known.{Grows, find_id-named}
use gorums.Conn.Nodes.Added.{Match}
use gorums.Conn.Nodes.Built.{Built, numbered, new_config_lem}
use gorums.Conn.Opening.{
  Source, of_map, of_list, declares_identity, Opened, opened, failed, build_source, close_pool,
  close_on_error, new_config, lookups, join, build_unpooled, extend_from, extend,
}

-- The IDs and addresses that a source asks for, on a pool.
abbrev pub entries_of : Net → Pool → Option Source → List (ℕ × ℕ)
entries_of net p none = []
entries_of net p (some (of_map verifier declares nm)) = nm
entries_of net p (some (of_list addrs)) = numbered net p addrs

abbrev pub named : List (ℕ × ℕ) → ℕ → Bool
named entries id = contains (map (λ e. e.0) entries) id

Match-has :
    (net : Net) (p : Pool) (entries : List (ℕ × ℕ)) (ns : List Node) (id : ℕ)
    → Match net p entries ns
    → has ns id ≡ named entries id
unfolding has
Match-has net p [] [] id m = refl
Match-has net p [] (_ ∷ _) id m = absurd cc
Match-has net p (_ ∷ _) [] id m = absurd cc
Match-has net p ((i, addr) ∷ entries) (n ∷ ns) id m =
    ground (arith, m.0.0, Match-has net p entries ns id m.1)

Match-knows :
    (net : Net) (p : Pool) (k : ℕ) (entries : List (ℕ × ℕ)) (ns : List Node) (id : ℕ)
    → Match net p entries ns
    → has ns id ≡ true
    → knows (lookups p k) id ≡ true
unfolding has
Match-knows net p k [] [] id m h = absurd cc
Match-knows net p k [] (_ ∷ _) id m h = absurd cc
Match-knows net p k (_ ∷ _) [] id m h = absurd cc
Match-knows net p k ((i, addr) ∷ entries) (n ∷ ns) id m h = elim (Bool-cases (nat_beq n.id id)) [
  | inl here ↦
      let e : n.id ≡ id = ground arith in
      let (q, at, _) = m.0.3 in ap (λ j. is_some (lookups p k j)) (sym e) ∙ ground (arith, at)
  | inr there ↦ Match-knows net p k entries ns id m.1 (ground (arith, there))
]

module _ (net : Net) (opts : DialOptions) where
  -- What Extend of a configuration by some entries leaves.
  abbrev pub Extended : List Node → Pool → List (ℕ × ℕ) → Pool × Opened → Type 0
  Extended c p entries (q, failed e) = IsPoolState net opts q × Grows p q
  Extended c p entries (q, opened r) =
      IsPoolState net opts q × Grows p q × ((id : ℕ) → has r id ≡ has c id || named entries id)

module _ (net : Net) (opts : DialOptions) (sort_func : SortFunc) where
  lookups-IsPool : (p : Pool) (k : ℕ) → IsPoolState net opts p → IsPool (lookups p k)
  lookups-IsPool p k v id n h = elim (Option-cases (p.lookup id)) [
    | inl absent ↦ absurd (ground (arith, absent))
    | inr (m, at) ↦
        let e : m.node ≡ n = ground (arith, at) in
        ap (λ (o : Node). o.id) (sym e) ∙ find_id-named id p.nodes m (sym (v.found id) ∙ at)
  ]

  build_source-Built :
      (source : Source) (p : Pool)
      → IsPoolState net opts p
      → Built net opts sort_func
          (entries_of net p (some source))
          p
          (build_source net opts sort_func source p)
  unfolding build_source
  build_source-Built (of_map verifier declares nm) p v =
      (new_config_lem net opts sort_func p v verifier nm []).0
  build_source-Built (of_list addrs) p v =
      (new_config_lem net opts sort_func p v (fails no_nodes) [] addrs).1

  module _ (sorts : Sorts sort_func) (n : Node) (c : List Node) (p : Pool)
      (v : IsPoolState net opts p) where
    join-Extended :
        (entries : List (ℕ × ℕ)) (b : Pool × Made (List Node))
        → (m : ℕ) → n.mgr ≡ some m
        → Built net opts sort_func entries p b
        → Returns (Extended net opts (n ∷ c) p entries) (join sort_func (n ∷ c) b)
    unfolding join
    join-Extended entries (q, fails e) m own h = h
    join-Extended entries (q, made new) m own (w, g, ns, same, match) =
        let ids : (id : ℕ) → has new id ≡ has ns id =
          λ id. ap (λ o. has o id) same ∙ has-sort sort_func sorts ns id in
        let (r, e, h) =
          has-union sort_func sorts (lookups q) n c m own (lookups-IsPool q m w) new
            (λ id there. Match-knows net q m entries ns id match (sym (ids id) ∙ there)) in
        rw (e, join)
          (
            w,
            g,
            λ id.
                h id ∙ ap (λ b. has (n ∷ c) id || b) (ids id ∙ Match-has net q entries ns id match),
          )

    stays : Grows p p
    stays i m h = h

    same_ids : (id : ℕ) → has (n ∷ c) id ≡ has (n ∷ c) id || named [] id
    same_ids id = ground arith

    extend_from-Extended :
        (source : Option Source) (m : ℕ)
        → n.mgr ≡ some m
        → Returns
            (Extended net opts (n ∷ c) p (entries_of net p source))
            (extend_from net opts sort_func (some m) (n ∷ c) source p)
    unfolding extend_from
    extend_from-Extended none m own =
        if_both (Returns (Extended net opts (n ∷ c) p [])) p.closed _ _ (v, stays)
          (v, stays, same_ids)
    extend_from-Extended (some source) m own =
        let P = Returns (Extended net opts (n ∷ c) p (entries_of net p (some source))) in
        let built =
          join-Extended (entries_of net p (some source)) (build_source net opts sort_func source p)
            m own (build_source-Built source p v) in
        if_both P p.closed _ _ (v, stays)
          (if_both P p.verifies _ _ (if_both P (declares_identity source) _ _ built (v, stays))
            (if_both P (declares_identity source) _ _ (v, stays) built))

    -- On a configuration whose first node belongs to a pool, Extend does not panic. A configuration that
    -- it returns has the IDs of the old one and those that the source asks for, and no other; and whether
    -- it succeeds or fails, the pool is in order and has lost no node. On a configuration of nodes without
    -- a pool, as those that a server has of its clients, Extend by any source that asks for a node panics,
    -- unless the source is a map whose identities are refused.
    pub extend_lem :
        (source : Option Source)
        → ((m : ℕ)
            → n.mgr ≡ some m
            → Returns
                (Extended net opts (n ∷ c) p (entries_of net p source))
                (extend net opts sort_func (n ∷ c) source p))
          × (n.mgr ≡ none
              → (addr : ℕ) (addrs : List ℕ) (e : ℕ × ℕ) (nm : List (ℕ × ℕ)) (verify : Option ℕ)
                (declares : Bool)
              → (extend net opts sort_func (n ∷ c) (some (of_list (addr ∷ addrs))) p ≡ panics)
                × (extend net opts sort_func
                      (n ∷ c)
                      (some (of_map (made verify) declares (e ∷ nm)))
                      p
                    ≡ panics))
    unfolding extend extend_from build_unpooled
    extend_lem source = (
      λ m own.
          subst
            (λ o.
              Returns (Extended net opts (n ∷ c) p (entries_of net p source))
                (extend_from net opts sort_func o (n ∷ c) source p))
            (sym own) (extend_from-Extended source m own),
      λ unpooled addr addrs e nm verify declares. (
        ap (λ o. extend_from net opts sort_func o (n ∷ c) (some (of_list (addr ∷ addrs))) p)
            unpooled,
        ap
            (λ o.
              extend_from net opts sort_func o (n ∷ c)
                (some (of_map (made verify) declares (e ∷ nm))) p)
            unpooled,
      ),
    )

module _ (net : Net) (opts : DialOptions) (sort_func : SortFunc) where
  -- What NewConfig leaves: a configuration with a node for each entry, or a closed pool.
  abbrev pub Opens : List (ℕ × ℕ) → Pool × Opened → Type 0
  Opens entries (q, opened c) =
      IsPoolState net opts q × (ns : List Node) × (c ≡ sort_func by_id ns) × Match net q entries ns
  Opens entries (q, failed e) = q.closed ≡ true

  close_on_error-Opens :
      (entries : List (ℕ × ℕ)) (p : Pool) (b : Pool × Made (List Node))
      → Built net opts sort_func entries p b
      → Opens entries (close_on_error b)
  unfolding close_on_error close_pool
  close_on_error-Opens entries p (q, made c) h = (h.0, h.2, h.3, h.4)
  close_on_error-Opens entries p (q, fails e) h =
      if_case (λ (r : Pool). r.closed ≡ true) q.closed _ _ (λ shut. shut) (λ _. refl)

  pub new_config-Opens :
      (source : Source) (id : ℕ)
      → Opens
          (entries_of net (new_pool id) (some source))
          (new_config net opts sort_func (some source) id)
  unfolding new_config
  new_config-Opens source id =
      close_on_error-Opens (entries_of net (new_pool id) (some source)) (new_pool id)
        (build_source net opts sort_func source (new_pool id))
        (build_source-Built net opts sort_func source (new_pool id) (new-IsPoolState net opts id))

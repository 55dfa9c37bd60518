-- ===== src/Conn/Nodes/Added.antt =====
-- What the builder of internal/conn/node_source.go adds for the entries that it is given.
use gorums.Prelude.{
  ℕ, ◌≡◌, refl, true, false, Option, none, some, List, [], ◌∷◌, ◌++◌, nat_beq, is_some, All-append,
  arith, ap, sym, subst, ◌∙◌, if_case, Option-cases, inl, inr, append_assoc, append-nil,
}
use gorums.Conn.Config.{Node}
use gorums.Conn.Pool.{
  PoolNode, PoolError, Made, made, fails, Net, comparable_addr, DialOptions, Pool, put, new_node,
}
use gorums.Conn.Pool.Distinct.{find_id, IsPoolState, Outcome, new_node-Outcome}
use gorums.Conn.Nodes.{NodeBuilder, Building, append_new, add_resolved, add, add_all}
use gorums.Conn.Nodes.Known.{Has, Has-Grows, Grows, find_id-longer, Knows, Noted-put, Noted-Unused}

-- The node has the ID, is not node 0, has an address that resolves as the given one does, and is the
-- pool's under its ID.
abbrev pub Suits : Net → Pool → ℕ × ℕ → Node → Type 0
Suits net p (id, addr) n =
    (n.id ≡ id)
    × (nat_beq id 0 ≡ false)
    × (net.resolve addr ≡ some (comparable_addr net n.addr))
    × Has p n

-- The nodes suit the entries, one by one.
abbrev pub Match : Net → Pool → List (ℕ × ℕ) → List Node → Type 0
Match net p [] [] = Unit
Match net p [] (_ ∷ _) = true ≡ false
Match net p (_ ∷ _) [] = true ≡ false
Match net p (e ∷ entries) (n ∷ ns) = Suits net p e n × Match net p entries ns

Match-Grows :
    (net : Net) (p q : Pool) (entries : List (ℕ × ℕ)) (ns : List Node)
    → Grows p q
    → Match net p entries ns
    → Match net q entries ns
Match-Grows net p q [] [] g h = tt
Match-Grows net p q [] (_ ∷ _) g h = h
Match-Grows net p q (_ ∷ _) [] g h = h
Match-Grows net p q ((id, addr) ∷ entries) (n ∷ ns) g h =
    ((h.0.0, h.0.1, h.0.2, Has-Grows p q n g h.0.3), Match-Grows net p q entries ns g h.1)

module _ (net : Net) (opts : DialOptions) where
  -- What holds of a building that goes on from a builder's nodes and a pool, for one more entry.
  abbrev Added : ℕ × ℕ → List Node → Pool → Option PoolError → Building → Type 0
  Added e before p (some _) s = Unit
  Added e before p none s =
      Knows net s.builder s.pool
      × (n : Node) × (s.builder.nodes ≡ before ++ n ∷ [])
      × Suits net s.pool e n

  abbrev Step : ℕ × ℕ → List Node → Pool → Building → Type 0
  Step e before p s = IsPoolState net opts s.pool × Grows p s.pool × Added e before p s.err s

  module _ (p : Pool) (v : IsPoolState net opts p) (id addr resolved : ℕ)
      (some_id : nat_beq id 0 ≡ false) (to : net.resolve addr ≡ some resolved) where
    stays : Grows p p
    stays i m h = h

    at_resolved : comparable_addr net addr ≡ resolved
    unfolding comparable_addr
    at_resolved = rw (to, comparable_addr) refl

    append_new-Step :
        (b : NodeBuilder) (r : Pool × Made PoolNode)
        → Knows net b p
        → is_some (b.addr_to_id resolved) ≡ true
        → Outcome net opts (record { id = id; addr = addr; mgr = some p.id }) p.nodes r
        → Step (id, addr) b.nodes p (append_new b r)
    unfolding append_new
    append_new-Step b (q, fails e) k used out =
        (out.0, λ i m h. out.0.found i ∙ rw (out.1) (sym (v.found i) ∙ h), tt)
    append_new-Step b (q, made m) k used out =
        let grown : Grows p q = λ i n h.
          out.0.found i
          ∙ ap (find_id i) out.2
          ∙ find_id-longer i p.nodes (m ∷ []) n (sym (v.found i) ∙ h) in
        let lies : comparable_addr net m.node.addr ≡ resolved =
          ap (λ (n : Node). comparable_addr net n.addr) out.1 ∙ at_resolved in
        (
          out.0,
          grown,
          (
            record {
              noted_all = rw (out.2) (All-append _ p.nodes (m ∷ []) k.noted_all (rw lies used, tt));
              known = λ i n h. let (e, there) = k.known i n h in (e, Has-Grows p q n grown there);
            },
            m.node,
            refl,
            (
              ap (λ n. n.id) out.1,
              some_id,
              to ∙ ap some (sym lies),
              (m, ap (λ n. q.lookup n.id) out.1 ∙ out.3, refl),
            ),
          ),
        )

    -- The entry at a node that the builder knows, and at a new one.
    add_resolved-Step :
        (o : Option Node) (b : NodeBuilder)
        → b.id_to_node id ≡ o
        → Knows net b p
        → Step (id, addr) b.nodes p (add_resolved net opts id addr resolved o b p)
    unfolding add_resolved
    add_resolved-Step (some n) b at k =
        if_case (Step (id, addr) b.nodes p) (nat_beq (comparable_addr net n.addr) resolved) _ _
          (λ same.
            let (e, there) = k.known id n at in
            (
              v,
              stays,
              (
                record { noted_all = k.noted_all; known = k.known },
                n,
                refl,
                (e, some_id, to ∙ ap some (ground arith), there),
              ),
            ))
          (λ differs. (v, stays, tt))
    add_resolved-Step none b at k = elim (Option-cases (b.addr_to_id resolved)) [
      | inr (i, taken) ↦ rw (taken, add_resolved) (v, stays, tt)
      | inl free ↦
          rw (free, add_resolved)
            (append_new-Step (record b { addr_to_id = put resolved id b.addr_to_id })
              (new_node net opts id addr b.verify p)
              (record {
                noted_all = Noted-put net b resolved id p.nodes k.noted_all;
                known = k.known;
              })
              (unfold put in ground arith)
              (new_node-Outcome net opts id addr b.verify p v
                (Noted-Unused net b addr p.nodes (ap b.addr_to_id at_resolved ∙ free) k.noted_all)
                some_id))
    ]

  add-Step :
      (p : Pool) (id addr : ℕ) (b : NodeBuilder)
      → IsPoolState net opts p
      → Knows net b p
      → Step (id, addr) b.nodes p (add net opts id addr b p)
  unfolding add
  add-Step p id addr b v k =
      if_case (Step (id, addr) b.nodes p) (nat_beq id 0) _ _ (λ zero. (v, (λ i m h. h), tt))
        (λ some_id. elim (Option-cases (net.resolve addr)) [
          | inl bad ↦ rw bad (v, (λ i m h. h), tt)
          | inr (resolved, to) ↦
              rw to (add_resolved-Step p v id addr resolved some_id to (b.id_to_node id) b refl k)
        ])

  -- What holds of a building that goes on for a list of entries.
  abbrev pub AddedAll : List (ℕ × ℕ) → List Node → Option PoolError → Building → Type 0
  AddedAll entries before (some _) s = Unit
  AddedAll entries before none s =
      (ns : List Node) × (s.builder.nodes ≡ before ++ ns) × Match net s.pool entries ns

  abbrev pub Steps : List (ℕ × ℕ) → List Node → Pool → Building → Type 0
  Steps entries before p s =
      IsPoolState net opts s.pool × Grows p s.pool × AddedAll entries before s.err s

  add_all_failed :
      (entries : List (ℕ × ℕ)) (b : NodeBuilder) (p : Pool) (e : PoolError)
      → let s : Building = record { builder = b; pool = p; err = some e } in
        add_all net opts entries s ≡ s
  unfolding add_all
  add_all_failed [] b p e = refl
  add_all_failed (_ ∷ entries) b p e = refl

  widen :
      (e : ℕ × ℕ) (entries : List (ℕ × ℕ)) (before : List Node) (n : Node) (p : Pool)
      (o : Option PoolError) (s : Building)
      → Grows p s.pool
      → Suits net p e n
      → AddedAll entries (before ++ n ∷ []) o s
      → AddedAll (e ∷ entries) before o s
  widen e entries before n p (some _) s g h rest = tt
  widen (id, addr) entries before n p none s g h (ns, all, match) = (
    n ∷ ns,
    all ∙ append_assoc before (n ∷ []) ns,
    ((h.0, h.1, h.2, Has-Grows p s.pool n g h.3), match),
  )

  pub add_all-Steps :
      (entries : List (ℕ × ℕ)) (b : NodeBuilder) (p : Pool)
      → IsPoolState net opts p
      → Knows net b p
      → Steps entries b.nodes p
          (add_all net opts entries (record { builder = b; pool = p; err = none }))
  unfolding add_all
  add_all-Steps [] b p v k = (v, (λ i m h. h), ([], sym (append-nil b.nodes), tt))
  add_all-Steps ((id, addr) ∷ entries) b p v k =
      let s = add net opts id addr b p in
      further (λ c q w l. add_all-Steps entries c q w l) s.builder s.pool s.err
        (add-Step p id addr b v k)
    where
      further :
          ((c : NodeBuilder) (q : Pool)
            → IsPoolState net opts q
            → Knows net c q
            → Steps entries c.nodes q
                (add_all net opts entries (record { builder = c; pool = q; err = none })))
          → (c : NodeBuilder) (q : Pool) (o : Option PoolError)
          → Step (id, addr) b.nodes p (record { builder = c; pool = q; err = o })
          → Steps
              ((id, addr) ∷ entries)
              b.nodes
              p
              (add_all net opts entries (record { builder = c; pool = q; err = o }))
      further rest c q (some e) h = rw (add_all_failed entries c q e) h
      further rest c q none (w, g, (l, n, e, suits)) =
          let (w', g', more) = rest c q w l in
          let s = add_all net opts entries (record { builder = c; pool = q; err = none }) in
          (
            w',
            λ i m h. g' i m (g i m h),
            widen (id, addr) entries b.nodes n q s.err s g' suits
                (subst (λ before. AddedAll entries before s.err s) e more),
          )

-- ===== src/Conn/Streams/Active.antt =====
-- Which channel of a node of internal/conn/node.go is active.
use gorums.Prelude.{
  ℕ, ◌≡◌, refl, Bool, false, not, ◌||◌, some, List, [], ◌∷◌, ◌++◌, if◌then◌else◌, nat_beq, contains,
  comparable_nat, keep, arith, Bool-cases, inl, inr, append-nil, ap, sym, ◌∙◌,
}
use gorums.Conn.Streams.{Streams, no_streams, attach, delete_first, last, activate, detach}

pub data Op : Type 0 where
  attaches detaches : ℕ → Op

unfoldable pub step : Streams → Op → Streams
step s (attaches ch) = attach ch s
step s (detaches ch) = (detach ch s).0

unfoldable pub run : Streams → List Op → Streams
run s [] = s
run s (op ∷ ops) = run (step s op) ops

unfoldable pub detached : ℕ → List Op → Bool
detached ch [] = false
detached ch (attaches c ∷ ops) = detached ch ops
detached ch (detaches c ∷ ops) = nat_beq ch c || detached ch ops

-- The channels that a history attaches and does not detach later, in order.
unfoldable pub survivors : List Op → List ℕ
survivors [] = []
survivors (detaches ch ∷ ops) = survivors ops
survivors (attaches ch ∷ ops) =
    let rest = survivors ops in if detached ch ops then rest else ch ∷ rest

-- A channel that is attached is not attached already.
abbrev pub AllNew : Streams → List Op → Type 0
AllNew s [] = Unit
AllNew s (attaches ch ∷ ops) = (contains s.live ch ≡ false) × AllNew (step s (attaches ch)) ops
AllNew s (detaches ch ∷ ops) = AllNew (step s (detaches ch)) ops

IsUnique : List ℕ → Type 0
IsUnique [] = Unit
IsUnique (c ∷ cs) = (contains cs c ≡ false) × IsUnique cs

record IsActive (s : Streams) : Type 0 where
  unique : IsUnique s.live
  newest : s.active ≡ last s.live

pub last-append : (cs : List ℕ) (c : ℕ) → last (cs ++ c ∷ []) ≡ some c
unfolding last
last-append [] c = refl
last-append (d ∷ []) c = refl
last-append (d ∷ e ∷ cs) c = last-append (e ∷ cs) c

absent-append :
    (cs : List ℕ) (d c : ℕ)
    → contains cs d ≡ false
    → nat_beq c d ≡ false
    → contains (cs ++ c ∷ []) d ≡ false
absent-append [] d c h n = ground arith
absent-append (e ∷ cs) d c h n = ground (arith, absent-append cs d c)

IsUnique-append :
    (cs : List ℕ) (c : ℕ) → IsUnique cs → contains cs c ≡ false → IsUnique (cs ++ c ∷ [])
unfolding IsUnique
IsUnique-append [] c u h = (refl, tt)
IsUnique-append (d ∷ cs) c u h =
    (ground (arith, u.0, absent-append cs d c), IsUnique-append cs c u.1 (ground arith))

absent-delete :
    (ch c : ℕ) (cs : List ℕ) → contains cs c ≡ false → contains (delete_first ch cs) c ≡ false
unfolding delete_first
absent-delete ch c [] h = refl
absent-delete ch c (d ∷ cs) h = ground (arith, absent-delete ch c cs)

IsUnique-delete : (ch : ℕ) (cs : List ℕ) → IsUnique cs → IsUnique (delete_first ch cs)
unfolding IsUnique delete_first
IsUnique-delete ch [] u = tt
IsUnique-delete ch (d ∷ cs) u = elim (Bool-cases (nat_beq d ch)) [
  | inl here ↦ rw here u.1
  | inr there ↦ rw there (absent-delete ch d cs u.0, IsUnique-delete ch cs u.1)
]

keep_others :
    (ch : ℕ) (ops : List Op) (cs : List ℕ)
    → contains cs ch ≡ false
    → keep (λ c. not (detached c (detaches ch ∷ ops))) cs ≡ keep (λ c. not (detached c ops)) cs
unfolding detached
keep_others ch ops [] h = refl
keep_others ch ops (c ∷ cs) h = ground (arith, keep_others ch ops cs)

keep-delete :
    (ch : ℕ) (ops : List Op) (cs : List ℕ)
    → IsUnique cs
    → keep (λ c. not (detached c ops)) (delete_first ch cs)
      ≡ keep (λ c. not (detached c (detaches ch ∷ ops))) cs
unfolding detached delete_first IsUnique
keep-delete ch ops [] u = refl
keep-delete ch ops (c ∷ cs) u = elim (Bool-cases (nat_beq c ch)) [
  | inl here ↦
      let e : c ≡ ch = ground arith in
      ground (arith, here, keep_others ch ops cs (ap (contains cs) (sym e) ∙ u.0))
  | inr there ↦ ground (arith, there, keep-delete ch ops cs u.1)
]

activate-IsActive : (cs : List ℕ) → IsUnique cs → IsActive (activate cs).0
unfolding activate
activate-IsActive [] u = record { unique = u; newest = refl }
activate-IsActive (c ∷ cs) u = record { unique = u; newest = refl }

activate-live : (cs : List ℕ) → (activate cs).0.live ≡ cs
unfolding activate
activate-live [] = refl
activate-live (c ∷ cs) = refl

attach-IsActive :
    (s : Streams) (ch : ℕ) → contains s.live ch ≡ false → IsActive s → IsActive (attach ch s)
unfolding attach
attach-IsActive s ch new v = record {
  unique = IsUnique-append s.live ch v.unique new;
  newest = sym (last-append s.live ch);
}

delete_absent : (ch : ℕ) (cs : List ℕ) → contains cs ch ≡ false → delete_first ch cs ≡ cs
unfolding delete_first
delete_absent ch [] h = refl
delete_absent ch (c ∷ cs) h = ground (arith, delete_absent ch cs)

detach-live : (s : Streams) (ch : ℕ) → (detach ch s).0.live ≡ delete_first ch s.live
unfolding detach
detach-live s ch = elim (Bool-cases (contains s.live ch)) [
  | inl found ↦ rw (detach, found) (activate-live (delete_first ch s.live))
  | inr gone ↦ rw (detach, gone) (sym (delete_absent ch s.live gone))
]

detach-IsActive : (s : Streams) (ch : ℕ) → IsActive s → IsActive (detach ch s).0
unfolding detach
detach-IsActive s ch v = elim (Bool-cases (contains s.live ch)) [
  | inl found ↦
      rw (detach, found)
        (activate-IsActive (delete_first ch s.live) (IsUnique-delete ch s.live v.unique))
  | inr gone ↦ rw (detach, gone) v
]

keep_none_detached : (cs : List ℕ) → keep (λ c. not (detached c [])) cs ≡ cs
unfolding detached
keep_none_detached [] = refl
keep_none_detached (c ∷ cs) = ap (◌∷◌ c) (keep_none_detached cs)

survivors-attach :
    (ch : ℕ) (ops : List Op) (cs : List ℕ)
    → keep (λ c. not (detached c ops)) (cs ++ ch ∷ []) ++ survivors ops
      ≡ keep (λ c. not (detached c (attaches ch ∷ ops))) cs ++ survivors (attaches ch ∷ ops)
unfolding survivors detached
survivors-attach ch ops [] = ground arith
survivors-attach ch ops (c ∷ cs) = ground (arith, survivors-attach ch ops cs)

run_from :
    (s : Streams) (ops : List Op)
    → IsActive s
    → AllNew s ops
    → ((run s ops).live ≡ keep (λ c. not (detached c ops)) s.live ++ survivors ops)
      × IsActive (run s ops)
unfolding run step survivors attach
run_from s [] v n =
    (sym (append-nil (keep (λ c. not (detached c [])) s.live) ∙ keep_none_detached s.live), v)
run_from s (attaches ch ∷ ops) v n =
    let ih = run_from (attach ch s) ops (attach-IsActive s ch n.0 v) n.1 in
    (ih.0 ∙ survivors-attach ch ops s.live, ih.1)
run_from s (detaches ch ∷ ops) v n =
    let ih = run_from (detach ch s).0 ops (detach-IsActive s ch v) n in
    (
      ih.0
          ∙ ap (λ cs. keep (λ c. not (detached c ops)) cs ++ survivors ops) (detach-live s ch)
          ∙ ap (λ cs. cs ++ survivors ops) (keep-delete ch ops s.live v.unique),
      ih.1,
    )

none-IsActive : IsActive no_streams
unfolding last IsUnique
none-IsActive = record { unique = tt; newest = refl }

-- After any history of streams that attach and detach, the live channels are those that were
-- attached and not detached since, in the order of their attachment, and the active channel is the
-- last of them.
pub run-Streams :
    (ops : List Op)
    → AllNew no_streams ops
    → ((run no_streams ops).live ≡ survivors ops)
      × ((run no_streams ops).active ≡ last (survivors ops))
run-Streams ops n =
    let (live, v) = run_from no_streams ops none-IsActive n in (live, v.newest ∙ ap last live)

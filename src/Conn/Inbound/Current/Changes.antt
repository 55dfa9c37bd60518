-- ===== src/Conn/Inbound/Current/Changes.antt =====
-- How the views of internal/conn/inbound_manager.go and the reports of them change.
use gorums.Prelude.{
  ℕ, ◌≡◌, refl, sym, ap, ◌∙◌, Bool, true, false, not, ◌&&◌, ◌||◌, some, List, [], ◌∷◌, ◌++◌, map,
  if◌then◌else◌, nat_beq, is_some, keep, All, contains, comparable_nat, arith, Bool-cases, inl, inr,
}
use gorums.Conn.Streams.{Streams, detach, activate, delete_first, last}
use gorums.Conn.Inbound.{NodeRef, find, assign, own_ref, equal_refs}

-- What the callback was told last; before its first call, the view that the registry began with.
abbrev pub latest : List NodeRef → List (List NodeRef) → List NodeRef
latest view [] = view
latest view (v ∷ vs) = latest v vs

-- Each view is another one than the one before.
abbrev pub AllNews : List NodeRef → List (List NodeRef) → Type 0
AllNews view [] = Unit
AllNews view (v ∷ vs) = (equal_refs view v ≡ false) × AllNews v vs

-- The newest of a node's live channels is its active one.
abbrev pub IsNewest : ℕ × Streams → Type 0
IsNewest (id, s) = s.active ≡ last s.live

latest-append : (v w : List NodeRef) (vs : List (List NodeRef)) → latest v (vs ++ w ∷ []) ≡ w
latest-append v w [] = refl
latest-append v w (u ∷ vs) = latest-append u w vs

AllNews-append :
    (v w : List NodeRef) (vs : List (List NodeRef))
    → AllNews v vs
    → equal_refs (latest v vs) w ≡ false
    → AllNews v (vs ++ w ∷ [])
AllNews-append v w [] a e = (e, tt)
AllNews-append v w (u ∷ vs) a e = (a.0, AllNews-append u w vs a.1 e)

-- `slices.Equal` is right on views.
equal_refs-eq : (a b : List NodeRef) → equal_refs a b ≡ true → a ≡ b
unfolding equal_refs
equal_refs-eq [] [] h = refl
equal_refs-eq [] (y ∷ ys) h = cc
equal_refs-eq (x ∷ xs) [] h = cc
equal_refs-eq (x ∷ xs) (y ∷ ys) h = ground (arith, equal_refs-eq xs ys)

last-is_some : (c : ℕ) (cs : List ℕ) → is_some (last (c ∷ cs)) ≡ true
unfolding last
last-is_some c [] = refl
last-is_some c (d ∷ cs) = last-is_some d cs

nonempty-is_some : (ch : ℕ) (cs : List ℕ) → contains cs ch ≡ true → is_some (last cs) ≡ true
nonempty-is_some ch [] h = cc
nonempty-is_some ch (c ∷ cs) h = last-is_some c cs

activate-IsNewest : (id : ℕ) (cs : List ℕ) → IsNewest (id, (activate cs).0)
unfolding activate last
activate-IsNewest id [] = refl
activate-IsNewest id (c ∷ cs) = refl

activate-keeps : (cs : List ℕ) → (activate cs).1 ≡ false → is_some (activate cs).0.active ≡ true
unfolding activate
activate-keeps [] h = cc
activate-keeps (c ∷ cs) h = last-is_some c cs

pub detach-IsNewest : (id ch : ℕ) (s : Streams) → IsNewest (id, s) → IsNewest (id, (detach ch s).0)
unfolding detach
detach-IsNewest id ch s h = elim (Bool-cases (contains s.live ch)) [
  | inl found ↦ rw (detach, found) (activate-IsNewest id (delete_first ch s.live))
  | inr gone ↦ rw (detach, gone) h
]

-- A node that keeps a live channel stays in its view.
pub detach-keeps :
    (id ch : ℕ) (s : Streams)
    → IsNewest (id, s)
    → (detach ch s).1 ≡ false
    → is_some (detach ch s).0.active ≡ is_some s.active
unfolding detach
detach-keeps id ch s h = elim (Bool-cases (contains s.live ch)) [
  | inl found ↦
      rw (detach, found)
        (λ e.
          activate-keeps (delete_first ch s.live) e
          ∙ sym (ap is_some h ∙ nonempty-is_some ch s.live found))
  | inr gone ↦ rw (detach, gone) (λ e. refl)
]

pub find-IsNewest :
    (id : ℕ) (s : Streams) (nodes : List (ℕ × Streams))
    → find id nodes ≡ some s
    → All IsNewest nodes
    → IsNewest (id, s)
unfolding find
find-IsNewest id s [] e v = cc
find-IsNewest id s ((k, t) ∷ nodes) e v = elim (Bool-cases (nat_beq k id)) [
  | inl same ↦ ground (arith, v.0)
  | inr other ↦ find-IsNewest id s nodes (ground arith) v.1
]

pub assign-IsNewest :
    (id : ℕ) (s : Streams) (nodes : List (ℕ × Streams))
    → IsNewest (id, s)
    → All IsNewest nodes
    → All IsNewest (assign id s nodes)
unfolding assign
assign-IsNewest id s [] h v = (h, tt)
assign-IsNewest id s ((k, t) ∷ nodes) h v = elim (Bool-cases (nat_beq k id)) [
  | inl same ↦ rw same (h, v.1)
  | inr other ↦ rw other (v.0, assign-IsNewest id s nodes h v.1)
]

pub keep-assign :
    (f : ℕ → Bool) (id : ℕ) (s t : Streams) (nodes : List (ℕ × Streams))
    → find id nodes ≡ some t
    → is_some s.active ≡ is_some t.active
    → map own_ref (keep (λ n. f n.0 || is_some n.1.active) (assign id s nodes))
      ≡ map own_ref (keep (λ n. f n.0 || is_some n.1.active) nodes)
unfolding find assign
keep-assign f id s t [] e h = cc
keep-assign f id s t ((k, u) ∷ nodes) e h = elim (Bool-cases (nat_beq k id)) [
  | inl same ↦ ground (arith, same)
  | inr other ↦ ground (arith, other, keep-assign f id s t nodes)
]

-- What the callback is told, when a view takes the place of an old one.
abbrev report : Bool → List NodeRef → List NodeRef → List (List NodeRef) → List (List NodeRef)
report reports old new told = if not (equal_refs old new) && reports then told ++ new ∷ [] else told

pub report_lem :
    (reports : Bool) (view old new : List NodeRef) (told : List (List NodeRef))
    → (reports ≡ true → latest view told ≡ old)
    → AllNews view told
    → (reports ≡ true → latest view (report reports old new told) ≡ new)
      × AllNews view (report reports old new told)
report_lem false view old new told h a = elim (Bool-cases (equal_refs old new)) [
  | inl same ↦ rw same (λ r. cc, a)
  | inr other ↦ rw other (λ r. cc, a)
]
report_lem true view old new told h a = elim (Bool-cases (equal_refs old new)) [
  | inl same ↦ rw same (λ r. h refl ∙ equal_refs-eq old new same, a)
  | inr other ↦ rw other (
    λ r. latest-append view new told,
    AllNews-append view new told a (ap (λ v. equal_refs v new) (h refl) ∙ other),
  )
]

-- Without a callback nothing is told.
pub silent :
    (old new : List NodeRef) (told : List (List NodeRef)) → report false old new told ≡ told
silent old new told = elim (Bool-cases (equal_refs old new)) [
  | inl same ↦ rw same refl
  | inr other ↦ rw other refl
]

-- ===== src/Impl/Correctable/Notify.antt =====
-- What an update of internal/impl/correctable.go closes.
use gorums.Prelude.{
  ℕ, ◌≡◌, refl, ◌||◌, Bool, true, false, Option, none, some, List, [], ◌∷◌, if◌then◌else◌, contains,
  comparable_nat, nat_beq, is_some, arith, Bool-cases, inl, inr, ap, sym, ◌∙◌,
}
use gorums.Prelude.Int.{ℤ}
use gorums.Prelude.Go.{returns}
use gorums.Impl.Correctable.{Watcher, int_leb, close_channel, close_all, keep_first, notify}

-- The level for which a channel waits.
unfoldable pub waiting : List (Option Watcher) → ℕ → Option ℤ
waiting [] ch = none
waiting (none ∷ ws) ch = waiting ws ch
waiting (some w ∷ ws) ch = if nat_beq w.ch ch then some w.level else waiting ws ch

-- No two watchers have the same channel.
abbrev pub IsDistinct : List (Option Watcher) → Type 0
IsDistinct [] = Unit
IsDistinct (none ∷ ws) = IsDistinct ws
IsDistinct (some w ∷ ws) = (waiting ws w.ch ≡ none) × IsDistinct ws

abbrev pub is_reached : ℤ → Option ℤ → Bool
is_reached level none = false
is_reached level (some l) = int_leb l level

-- No watcher's channel is closed.
abbrev pub AllOpen : List (Option Watcher) → List ℕ → Type 0
AllOpen ws closed = (ch : ℕ) → is_some (waiting ws ch) ≡ true → contains closed ch ≡ false

-- A channel that is closed for its watcher leaves the others open.
AllOpen-close :
    (w : Watcher) (ws : List (Option Watcher)) (closed : List ℕ)
    → IsDistinct (some w ∷ ws)
    → AllOpen (some w ∷ ws) closed
    → AllOpen ws (w.ch ∷ closed)
unfolding waiting
AllOpen-close w ws closed d o ch s = elim (Bool-cases (nat_beq w.ch ch)) [
  | inl same ↦ let e : w.ch ≡ ch = ground arith in ground (arith, s, d.0, ap (waiting ws) e)
  | inr other ↦ ground (arith, o ch, s, other)
]

AllOpen-tail :
    (w : Watcher) (ws : List (Option Watcher)) (closed : List ℕ)
    → AllOpen (some w ∷ ws) closed
    → AllOpen ws closed
unfolding waiting
AllOpen-tail w ws closed o ch s = ground (arith, o ch, s)

pub close_all_lem :
    (ws : List (Option Watcher)) (closed : List ℕ)
    → IsDistinct ws
    → AllOpen ws closed
    → (closed' : List ℕ) × (close_all ws closed ≡ returns closed')
      × ((ch : ℕ) → contains closed' ch ≡ contains closed ch || is_some (waiting ws ch))
unfolding close_all close_channel waiting
close_all_lem [] closed d o = (closed, refl, λ ch. ground arith)
close_all_lem (none ∷ ws) closed d o = close_all_lem ws closed d o
close_all_lem (some w ∷ ws) closed d o =
    let head_open : contains closed w.ch ≡ false = o w.ch (ground arith) in
    let (r, e, h) = close_all_lem ws (w.ch ∷ closed) d.1 (AllOpen-close w ws closed d o) in
    (r, rw head_open e, λ ch. ground (arith, h ch))

alone :
    (w : Watcher) (ws : List (Option Watcher))
    → waiting ws w.ch ≡ none
    → (ch : ℕ) → nat_beq w.ch ch ≡ true
    → waiting ws ch ≡ none
alone w ws d ch same = let e : w.ch ≡ ch = ground arith in ap (waiting ws) (sym e) ∙ d

none_left : (level : ℤ) (o : Option ℤ) → o ≡ none → (if is_reached level o then none else o) ≡ none
none_left level o e = rw e

pub notify_lem :
    (level : ℤ) (ws : List (Option Watcher)) (closed : List ℕ)
    → IsDistinct ws
    → AllOpen ws closed
    → (r : List (Option Watcher) × List ℕ) × (notify level ws closed ≡ returns r)
      × IsDistinct r.0
      × ((ch : ℕ)
          → waiting r.0 ch ≡ (if is_reached level (waiting ws ch) then none else waiting ws ch))
      × ((ch : ℕ) → contains r.1 ch ≡ contains closed ch || is_reached level (waiting ws ch))
unfolding notify close_channel waiting
notify_lem level [] closed d o = (([], closed), refl, d, λ ch. refl, λ ch. ground arith)
notify_lem level (none ∷ ws) closed d o =
    let (r, e, d', w', h) = notify_lem level ws closed d o in (keep_first none r, rw e, d', w', h)
notify_lem level (some w ∷ ws) closed d o = elim (Bool-cases (int_leb w.level level)) [
  | inl reached ↦
      let head_open : contains closed w.ch ≡ false = o w.ch (ground arith) in
      let (r, e, d', w', h) =
        notify_lem level ws (w.ch ∷ closed) d.1 (AllOpen-close w ws closed d o) in
      (
        keep_first none r,
        rw (notify, reached, head_open, e),
        d',
        λ ch. elim (Bool-cases (nat_beq w.ch ch)) [
          | inl same ↦ ground (arith, same, w' ch, reached, alone w ws d.0 ch same)
          | inr other ↦ ground (arith, other, w' ch, reached)
        ],
        λ ch. elim (Bool-cases (nat_beq w.ch ch)) [
          | inl same ↦ ground (arith, same, h ch, reached, alone w ws d.0 ch same)
          | inr other ↦ ground (arith, other, h ch, reached)
        ],
      )
  | inr above ↦
      let (r, e, d', w', h) = notify_lem level ws closed d.1 (AllOpen-tail w ws closed o) in
      (
        keep_first (some w) r,
        rw (notify, above, e),
        (w' w.ch ∙ none_left level (waiting ws w.ch) d.0, d'),
        λ ch. elim (Bool-cases (nat_beq w.ch ch)) [
          | inl same ↦ ground (arith, same, w' ch, above, alone w ws d.0 ch same)
          | inr other ↦ ground (arith, other, w' ch, above)
        ],
        λ ch. elim (Bool-cases (nat_beq w.ch ch)) [
          | inl same ↦ ground (arith, same, h ch, above, alone w ws d.0 ch same)
          | inr other ↦ ground (arith, other, h ch, above)
        ],
      )
]

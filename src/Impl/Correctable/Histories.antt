-- ===== src/Impl/Correctable/Histories.antt =====
-- Histories of a call of internal/impl/correctable.go and of its watchers.
use gorums.Prelude.{
  ℕ, suc, ◌≡◌, ◌⊎◌, refl, ◌||◌, true, false, Option, none, some, List, [], ◌∷◌, ◌++◌, if◌then◌else◌,
  length, contains, comparable_nat, nat_beq, is_some, arith, Bool-cases, Option-cases, inl, inr,
  sym, ◌∙◌, subst,
}
use gorums.Prelude.Int.{ℤ, pos}
use gorums.Prelude.Go.{Go, returns, ◌>>=◌}
use gorums.Errors.{plain, ErrorsIs}
use gorums.Impl.Responses.{Responses, check_threshold, mark_dispatched}
use gorums.Impl.Correctable.{
  Watcher, Correctable, Update, new_correctable, correct_loop, correctable, watch, update, int_leb,
  close_channel, level_not_set,
}
use gorums.Impl.Correctable.Notify.{waiting, IsDistinct}
use gorums.Impl.Correctable.Watched.{Plan, correct_loop-Plan, asked_level, IsTold, update-IsTold}

waiting-append :
    (ws : List (Option Watcher)) (w : Watcher) (ch : ℕ)
    → waiting (ws ++ some w ∷ []) ch ≡ (
        if is_some (waiting ws ch)
        then waiting ws ch
        else if nat_beq w.ch ch
        then some w.level
        else none)
unfolding waiting
waiting-append [] w ch = refl
waiting-append (none ∷ ws) w ch = waiting-append ws w ch
waiting-append (some x ∷ ws) w ch = ground (arith, waiting-append ws w ch)

IsDistinct-append :
    (ws : List (Option Watcher)) (w : Watcher)
    → IsDistinct ws
    → waiting ws w.ch ≡ none
    → IsDistinct (ws ++ some w ∷ [])
unfolding waiting
IsDistinct-append [] w d n = (refl, tt)
IsDistinct-append (none ∷ ws) w d n = IsDistinct-append ws w d n
IsDistinct-append (some x ∷ ws) w d n =
    (ground (arith, waiting-append ws w x.ch, d.0, n), IsDistinct-append ws w d.1 (ground arith))

module _ {ℓ} {A : Type ℓ} (asked : List (ℕ × ℤ)) (c : Correctable A) (v : IsTold asked c)
    (l : ℤ) where
  watch-IsTold :
      (c' : Correctable A) × (watch l c ≡ returns (c', c.channels))
      × IsTold ((c.channels, l) ∷ asked) c'
      × (c'.done ≡ c.done)
      × (c'.level ≡ c.level)
  unfolding watch close_channel
  watch-IsTold = elim (Bool-cases (c.done || int_leb l c.level)) [
    | inl now ↦ (
      record c { channels = suc c.channels; closed = c.channels ∷ c.closed },
      rw (watch, now, (v.fresh c.channels (omega arith)).0),
      record {
        told = λ ch k a. elim (Bool-cases (nat_beq c.channels ch)) [
          | inl same ↦ ground (arith, same, now, a)
          | inr other ↦ ground (arith, other, v.told ch k, a)
        ];
        finished = ground (arith, v.finished, v.reserved.0);
        waits = λ ch k a o. ground (arith, v.waits ch k, a, o);
        distinct = v.distinct;
        opened = λ o ch s. ground (arith, v.opened o ch s, s, v.fresh ch);
        fresh = λ ch f.
            (ground (arith, v.fresh ch), ground (arith, v.fresh ch), ground (arith, v.fresh ch));
        reserved = (omega arith, v.reserved.1, ground (arith, v.reserved.0, v.reserved.2));
      },
      refl,
      refl,
    )
    | inr later ↦
        let w : Watcher = record { level = l; ch = c.channels } in
        (
          record c { channels = suc c.channels; watchers = c.watchers ++ some w ∷ [] },
          rw (watch, later),
          record {
            told = λ ch k a. elim (Bool-cases (nat_beq c.channels ch)) [
              | inl same ↦ ground (arith, same, later, a, v.fresh ch)
              | inr other ↦ ground (arith, other, v.told ch k, a)
            ];
            finished = v.finished;
            waits = λ ch k a o. elim (Bool-cases (nat_beq c.channels ch)) [
              | inl same ↦ ground (arith, same, a, v.fresh ch, waiting-append c.watchers w ch)
              | inr other ↦
                  ground (arith, other, v.waits ch k, a, o, waiting-append c.watchers w ch)
            ];
            distinct =
                IsDistinct-append c.watchers w v.distinct (ground (arith, v.fresh c.channels));
            opened = λ o ch s. elim (Bool-cases (nat_beq c.channels ch)) [
              | inl same ↦ ground (arith, same, v.fresh ch)
              | inr other ↦ ground (arith, other, v.opened o ch, s, waiting-append c.watchers w ch)
            ];
            fresh = λ ch f. (
              ground (arith, v.fresh ch),
              ground (arith, v.fresh ch, waiting-append c.watchers w ch),
              ground (arith, v.fresh ch),
            );
            reserved = (
              omega arith,
              ground (arith, v.reserved.0, v.reserved.1, waiting-append c.watchers w 0),
              ground (arith, v.reserved.0, v.reserved.2),
            );
          },
          refl,
          refl,
        )
  ]

-- The goroutine makes its next update, or a client asks for a level.
pub data Event : Type 0 where
  updates : Event
  watches : ℤ → Event

abbrev pub State {ℓ} : Type ℓ → Type ℓ
State A = Correctable A × List (Update A) × List (ℕ × ℤ)

check_positive : (k : ℕ) → check_threshold (pos (suc k)) ≡ returns tt
unfolding check_threshold
check_positive k = ground arith

module _ {ℓ} {A : Type ℓ} where
  -- A history, on the updates that are to come and the levels asked for so far.
  unfoldable pub run : Correctable A → List (Update A) → List (ℕ × ℤ) → List Event → Go (State A)
  run c us asked [] = returns (c, us, asked)
  run c [] asked (updates ∷ es) = run c [] asked es
  run c (u ∷ us) asked (updates ∷ es) =
      update u.reply u.level u.done u.err c >>= λ c'. run c' us asked es
  run c us asked (watches l ∷ es) = watch l c >>= λ r. run r.0 us ((r.1, l) ∷ asked) es

  abbrev pub IsPending : Correctable A → List (Update A) → Type 0
  IsPending c us = ((c.done ≡ true) × (length us ≡ 0)) ⊎ ((c.done ≡ false) × Plan c.level us)

  abbrev pub Ends : Go (State A) → Type ℓ
  Ends g = (s : State A) × (g ≡ returns s) × IsTold s.2 s.0 × IsPending s.0 s.1

  run-Ends :
      (c : Correctable A) (us : List (Update A)) (asked : List (ℕ × ℤ)) (es : List Event)
      → IsTold asked c
      → IsPending c us
      → Ends (run c us asked es)
  unfolding run
  run-Ends c us asked [] v p = ((c, us, asked), refl, v, p)
  run-Ends c [] asked (updates ∷ es) v p = run-Ends c [] asked es v p
  run-Ends c (u ∷ us) asked (updates ∷ es) v (inl ended) = absurd (omega (arith, ended.1))
  run-Ends c (u ∷ us) asked (updates ∷ es) v (inr (going, (rise, split))) =
      let (c', e, v', d, l) = update-IsTold asked c v u going rise in
      rw e (
        run-Ends c' us asked es v' (elim split [
          | inl last ↦ inl (d ∙ last.0, last.1)
          | inr more ↦ inr (d ∙ more.0, subst (λ k. Plan k us) (sym l) more.1)
        ]))
  run-Ends c us asked (watches k ∷ es) v p =
      let (c', e, v', d, l) = watch-IsTold asked c v k in
      rw e (
        run-Ends c' us ((c.channels, k) ∷ asked) es v' (elim p [
          | inl ended ↦ inl (d ∙ ended.0, ended.1)
          | inr going ↦ inr (d ∙ going.0, subst (λ k. Plan k us) (sym l) going.1)
        ]))

  new-IsTold : IsTold [] (new_correctable {A = A})
  unfolding waiting
  new-IsTold = record {
    told = λ ch l a. cc;
    finished = refl;
    waits = λ ch l a. cc;
    distinct = tt;
    opened = λ o ch s. refl;
    fresh = λ ch f. (refl, refl, refl);
    reserved = (omega arith, refl, refl);
  }

  ended :
      (c : Correctable A) (us : List (Update A)) → IsPending c us → length us ≡ 0 → c.done ≡ true
  ended c us (inl e) h = e.0
  ended c [] (inr (going, plan)) h = cc plan
  ended c (u ∷ us) (inr (going, plan)) h = absurd (omega (arith, h))

  correctable-Plan :
      (lib : ErrorsIs) (r : Responses A) (k : ℕ)
      → (us : List (Update A)) × (correctable lib r (pos (suc k)) ≡ returns (mark_dispatched r, us))
        × Plan level_not_set us
  unfolding correctable int_leb
  correctable-Plan lib r k = elim (Option-cases r.err) [
    | inl good ↦ (
      correct_loop lib (pos (suc k)) r.seq none 0 [],
      ground (arith, good, check_positive k),
      correct_loop-Plan lib (pos (suc k)) r.seq none 0 [] level_not_set refl,
    )
    | inr (e, empty) ↦ (
      (record { reply = none; level = level_not_set; done = true; err = some (plain e) }) ∷ [],
      ground (arith, empty, check_positive k),
      (refl, inl (refl, refl)),
    )
  ]

  -- `Correctable(k + 1)` marks the call as dispatched and makes a list of updates. However clients
  -- watch the call meanwhile, no update and no watch panics: no channel is closed twice, and no update
  -- follows the one that completes the call. At any time the channel of a level is closed exactly if the call has completed or has
  -- reached the level, and the channel of `Done` exactly if it has completed, which it has once no
  -- update is left.
  pub correctable_told :
      (lib : ErrorsIs) (r : Responses A) (k : ℕ) (es : List Event)
      → (us : List (Update A)) × (correctable lib r (pos (suc k)) ≡ returns (mark_dispatched r, us))
        × (s : State A) × (run new_correctable us [] es ≡ returns s)
        × ((ch : ℕ) (l : ℤ)
            → asked_level s.2 ch ≡ some l
            → contains s.0.closed ch ≡ s.0.done || int_leb l s.0.level)
        × (contains s.0.closed 0 ≡ s.0.done)
        × ((length s.1 ≡ 0) → s.0.done ≡ true)
  correctable_told lib r k es =
      let (us, f, plan) = correctable-Plan lib r k in
      let (s, e, v, p) = run-Ends new_correctable us [] es new-IsTold (inr (refl, plan)) in
      (us, f, s, e, v.told, v.finished, ended s.0 s.1 p)

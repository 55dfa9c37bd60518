-- ===== src/Impl/Correctable/Watched.antt =====
-- What the watchers of a call of internal/impl/correctable.go see.
use gorums.Prelude.{
  ℕ, suc, ◌≡◌, ◌≤◌, ◌⊎◌, refl, ◌||◌, Bool, true, false, Option, none, some, List, [], ◌∷◌, ◌++◌,
  if◌then◌else◌, length, contains, comparable_nat, nat_beq, arith, Bool-cases, Option-cases, inl,
  inr, ap, ◌∙◌,
}
use gorums.Prelude.Int.{ℤ, pos, negsuc}
use gorums.Prelude.Go.{returns}
use gorums.Errors.{skip_node, ErrorsIs, NodeError}
use gorums.Impl.Responses.{NodeResponse, at_least}
use gorums.Impl.Correctable.{Correctable, Update, correct_loop, update, int_leb, close_channel}
use gorums.Impl.Correctable.Notify.{waiting, IsDistinct, AllOpen, close_all_lem, notify_lem}

rises :
    (level : ℤ) (count : ℕ)
    → int_leb level (pos count) ≡ true
    → int_leb level (pos (suc count)) ≡ true
unfolding int_leb
rises (pos a) count h = ground arith
rises (negsuc a) count h = refl

module _ {ℓ} {A : Type ℓ} where
  -- Updates whose levels do not fall, of which the last and no other completes the call.
  abbrev pub Plan : ℤ → List (Update A) → Type 0
  Plan level [] = true ≡ false
  Plan level (u ∷ us) =
      (int_leb level u.level ≡ true)
      × (((u.done ≡ true) × (length us ≡ 0)) ⊎ ((u.done ≡ false) × Plan u.level us))

  done_or_not :
      (is_done : Bool) (later : List (Update A)) (level : ℤ)
      → Plan level later
      → ((is_done ≡ true) × (length (if is_done then [] else later) ≡ 0))
        ⊎ ((is_done ≡ false) × Plan level (if is_done then [] else later))
  done_or_not true later level p = inl (refl, refl)
  done_or_not false later level p = inr (refl, p)

  pub correct_loop-Plan :
      (lib : ErrorsIs) (n : ℤ) (rs : List (NodeResponse A)) (last : Option A) (count : ℕ)
      (errs : List NodeError) (level : ℤ)
      → int_leb level (pos count) ≡ true
      → Plan level (correct_loop lib n rs last count errs)
  unfolding correct_loop int_leb
  correct_loop-Plan lib n [] last count errs level h = (h, inl (refl, refl))
  correct_loop-Plan lib n (r ∷ rs) last count errs level h =
      elim (Bool-cases (lib.is r.err skip_node)) [
        | inl skipped ↦
            rw (correct_loop, skipped) (correct_loop-Plan lib n rs last count errs level h)
        | inr counted ↦ elim (Option-cases r.err) [
          | inr (e, failed) ↦
              rw (correct_loop, counted, failed)
                (correct_loop-Plan lib n rs last count
                  (errs ++ (record { cause = e; node_id = r.node_id }) ∷ []) level h)
          | inl good ↦
              rw (correct_loop, counted, good)
                (
                  rises level count h,
                  done_or_not (at_least (suc count) n)
                      (correct_loop lib n rs r.value (suc count) errs) (pos (suc count))
                      (correct_loop-Plan lib n rs r.value (suc count) errs (pos (suc count))
                        (ground arith)),
                )
        ]
      ]

-- The level asked for with each channel, the newest first.
abbrev pub asked_level : List (ℕ × ℤ) → ℕ → Option ℤ
asked_level [] ch = none
asked_level ((k, l) ∷ asked) ch = if nat_beq k ch then some l else asked_level asked ch

pub record IsTold {ℓ} {A : Type ℓ} (asked : List (ℕ × ℤ)) (c : Correctable A) : Type ℓ where
  pub told :
      (ch : ℕ) (l : ℤ)
      → asked_level asked ch ≡ some l
      → contains c.closed ch ≡ c.done || int_leb l c.level
  pub finished : contains c.closed 0 ≡ c.done
  pub waits :
      (ch : ℕ) (l : ℤ)
      → asked_level asked ch ≡ some l
      → contains c.closed ch ≡ false
      → waiting c.watchers ch ≡ some l
  pub distinct : IsDistinct c.watchers
  pub opened : c.done ≡ false → AllOpen c.watchers c.closed
  pub fresh :
      (ch : ℕ)
      → c.channels ≤ ch
      → (contains c.closed ch ≡ false)
        × (waiting c.watchers ch ≡ none)
        × (asked_level asked ch ≡ none)
  pub reserved : (1 ≤ c.channels) × (waiting c.watchers 0 ≡ none) × (asked_level asked 0 ≡ none)

int_leb_trans : (a b c : ℤ) → int_leb a b ≡ true → int_leb b c ≡ true → int_leb a c ≡ true
unfolding int_leb
int_leb_trans (pos a) (pos b) (pos c) h g = ground arith
int_leb_trans (pos a) (pos b) (negsuc c) h g = cc
int_leb_trans (pos a) (negsuc b) c h g = cc
int_leb_trans (negsuc a) b (pos c) h g = refl
int_leb_trans (negsuc a) (pos b) (negsuc c) h g = cc
int_leb_trans (negsuc a) (negsuc b) (negsuc c) h g = ground arith

module _ {ℓ} {A : Type ℓ} (asked : List (ℕ × ℤ)) (c : Correctable A) (v : IsTold asked c) where
  not_zero : c.done ≡ false → AllOpen c.watchers (0 ∷ c.closed)
  not_zero going ch s = elim (Bool-cases (nat_beq 0 ch)) [
    | inl same ↦
        let e : 0 ≡ ch = ground arith in ground (arith, s, v.reserved.1, ap (waiting c.watchers) e)
    | inr other ↦ ground (arith, other, v.opened going ch s)
  ]

  pub update-IsTold :
      (u : Update A)
      → c.done ≡ false
      → int_leb c.level u.level ≡ true
      → (c' : Correctable A) × (update u.reply u.level u.done u.err c ≡ returns c')
        × IsTold asked c'
        × (c'.done ≡ u.done)
        × (c'.level ≡ u.level)
  unfolding update close_channel
  update-IsTold u going rise = elim (Bool-cases u.done) [
    | inl last ↦
        let (now, e, h) = close_all_lem c.watchers (0 ∷ c.closed) v.distinct (not_zero going) in
        (
          record c { reply = u.reply; level = u.level; err = u.err; done = u.done; closed = now },
          rw (update, going, last, v.finished ∙ going, e),
          record {
            told = λ ch l a. elim (Bool-cases (contains c.closed ch)) [
              | inl shut ↦ ground (arith, h ch, last, shut)
              | inr o ↦ ground (arith, h ch, last, v.waits ch l a o)
            ];
            finished = ground (arith, h 0, last);
            waits = λ ch l a o. v.waits ch l a (ground (arith, h ch, o));
            distinct = v.distinct;
            opened = λ o. cc;
            fresh = λ ch f. (
              ground (arith, h ch, v.fresh ch f, v.reserved.0),
              (v.fresh ch f).1,
              (v.fresh ch f).2,
            );
            reserved = v.reserved;
          },
          refl,
          refl,
        )
    | inr more ↦
        let (r, e, d, w, h) = notify_lem u.level c.watchers c.closed v.distinct (v.opened going) in
        (
          record c {
            reply = u.reply;
            level = u.level;
            err = u.err;
            done = u.done;
            watchers = r.0;
            closed = r.1;
          },
          rw (update, going, more, e),
          record {
            told = λ ch l a. elim (Bool-cases (contains c.closed ch)) [
              | inl shut ↦ ground (
                arith,
                h ch,
                more,
                shut,
                int_leb_trans l c.level u.level (ground (arith, v.told ch l a, going, shut)) rise,
              )
              | inr o ↦ ground (arith, h ch, more, v.waits ch l a o, o)
            ];
            finished = ground (arith, h 0, more, v.finished, going, v.reserved.1);
            waits =
                λ ch l a o. ground (arith, w ch, h ch, o, v.waits ch l a (ground (arith, h ch, o)));
            distinct = d;
            opened = λ o ch s. elim (Option-cases (waiting c.watchers ch)) [
              | inl nobody ↦ ground (arith, w ch, s, nobody)
              | inr (l, somebody) ↦
                  ground
                    (arith, w ch, h ch, s, somebody, v.opened going ch (ground (arith, somebody)))
            ];
            fresh = λ ch f. (
              ground (arith, h ch, v.fresh ch f),
              ground (arith, w ch, v.fresh ch f),
              (v.fresh ch f).2,
            );
            reserved = (v.reserved.0, ground (arith, w 0, v.reserved.1), v.reserved.2);
          },
          refl,
          refl,
        )
  ]

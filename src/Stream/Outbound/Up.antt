-- ===== src/Stream/Outbound/Up.antt =====
-- internal/stream/outbound.go: when the stream of an outbound channel is up.
use gorums.Prelude.{
  ℕ, zero, suc, ◌+◌, ◌<◌, ◌≡◌, length, length-append, refl, sym, ◌∙◌, ap, Bool, true, false, not,
  Option, none, some, List, [], ◌∷◌, ◌++◌, arith, if_case, contains, comparable_nat,
}
use gorums.Stream.Outbound.{Outbound, is_live, same_bool, set_stream_up, call_back, open_session}

-- What happens to the streams: `run` opens the next one, when the send loop of the last has returned; the
-- server accepts a stream, maybe late; the send loop of the current one returns; and a goroutine that
-- changed the state calls `onStreamChange`.
pub data Event : Type 0 where
  opens accepts downs : ℕ → Event
  calls : Event

unfoldable pub step : Outbound → Event → Outbound
step c (opens s) = open_session s c
step c (accepts s) = set_stream_up s true c
step c (downs s) = set_stream_up s false c
step c calls = call_back c

-- A stream is opened when none is live, and its number is new: it is not accepted yet. A call is made for
-- a change.
abbrev pub Enabled : Outbound → List ℕ → Event → Type 0
Enabled c accepted (opens s) = (c.live ≡ none) × (contains accepted s ≡ false)
Enabled c accepted (accepts s) = Unit
Enabled c accepted (downs s) = c.live ≡ some s
Enabled c accepted calls = 0 < c.due

abbrev pub accepted_by : List ℕ → Event → List ℕ
accepted_by accepted (accepts s) = s ∷ accepted
accepted_by accepted (opens s) = accepted
accepted_by accepted (downs s) = accepted
accepted_by accepted calls = accepted

-- The streams accepted so far, after a history.
pub data Reached : Outbound → List ℕ → Type 0 where
  begin :
      (c : Outbound) → c.live ≡ none → c.stream_up ≡ false → c.due ≡ 0 → c.seen ≡ [] → Reached c []
  go_on :
      (c : Outbound) (accepted : List ℕ) (a : Event)
      → Reached c accepted
      → Enabled c accepted a
      → Reached (step c a) (accepted_by accepted a)

abbrev pub is_odd : ℕ → Bool
is_odd zero = false
is_odd (suc n) = not (is_odd n)

-- The last state seen, or the first state of all.
abbrev pub latest : Bool → List Bool → Bool
latest before [] = before
latest before (b ∷ bs) = latest b bs

latest-append : (before up : Bool) (bs : List Bool) → latest before (bs ++ up ∷ []) ≡ up
latest-append before up [] = refl
latest-append before up (b ∷ bs) = latest-append b up bs

abbrev pub is_up : Option ℕ → List ℕ → Bool
is_up none accepted = false
is_up (some s) accepted = contains accepted s

-- Each change of the state has been called for or is due to be, and if none is due, the last call saw the
-- state.
pub record IsUp (c : Outbound) (accepted : List ℕ) : Type 0 where
  pub state : c.stream_up ≡ is_up c.live accepted
  pub once : c.stream_up ≡ is_odd (c.due + length c.seen)
  pub told : c.due ≡ 0 → latest false c.seen ≡ c.stream_up

is_up-other :
    (s : ℕ) (live : Option ℕ) (accepted : List ℕ)
    → is_live s live ≡ false
    → is_up live (s ∷ accepted) ≡ is_up live accepted
is_up-other s none accepted e = refl
is_up-other s (some t) accepted e = ground arith

is_up-mine :
    (s : ℕ) (live : Option ℕ) (accepted : List ℕ)
    → is_live s live ≡ true
    → is_up live (s ∷ accepted) ≡ true
is_up-mine s none accepted e = cc
is_up-mine s (some t) accepted e = ground arith

-- One more change is due to be called for.
due_more :
    (due n : ℕ) (was up : Bool) → was ≡ is_odd (due + n) → not was ≡ up → up ≡ is_odd (suc due + n)
due_more due n was up h e = sym e ∙ ap not h ∙ ap is_odd (suc_plus due n)
  where
    suc_plus : (a b : ℕ) → suc (a + b) ≡ suc a + b
    suc_plus a b = omega arith

accepts-IsUp :
    (s : ℕ) (c : Outbound) (accepted : List ℕ)
    → IsUp c accepted
    → IsUp (set_stream_up s true c) (s ∷ accepted)
unfolding set_stream_up
accepts-IsUp s c accepted v =
    let After = λ (d : Outbound). IsUp d (s ∷ accepted) in
    if_case After (not (is_live s c.live)) c _
      (λ other. record {
        state = v.state ∙ sym (is_up-other s c.live accepted (ground arith));
        once = v.once;
        told = v.told;
      })
      (λ mine.
        if_case After (same_bool c.stream_up true) _ _
          (λ was. record {
            state = ground (arith, is_up-mine s c.live accepted);
            once = v.once;
            told = v.told;
          })
          (λ changed. record {
            state = ground (arith, is_up-mine s c.live accepted);
            once = due_more c.due (length c.seen) c.stream_up true v.once (ground arith);
            told = λ none_due. absurd (omega (arith, none_due));
          }))

-- The end of the live stream.
downs-IsUp :
    (s : ℕ) (c : Outbound) (accepted : List ℕ)
    → c.live ≡ some s
    → IsUp c accepted
    → IsUp (set_stream_up s false c) accepted × ((set_stream_up s false c).live ≡ none)
unfolding set_stream_up
downs-IsUp s c accepted l v =
    let After = λ (d : Outbound). IsUp d accepted × (d.live ≡ none) in
    if_case After (same_bool c.stream_up false) _ _
      (λ was.
        (record { state = ground (arith, l); once = v.once; told = v.told }, ground (arith, l)))
      (λ changed. (
        record {
          state = ground (arith, l);
          once = due_more c.due (length c.seen) c.stream_up false v.once (ground arith);
          told = λ none_due. absurd (omega (arith, none_due));
        },
        ground (arith, l),
      ))

called : (n due k : ℕ) {l : ℕ} → due ≡ suc n → l ≡ k + 1 → due + k ≡ n + l
called n due k e h = omega arith

call_back-IsUp :
    (c : Outbound) (accepted : List ℕ) (due : ℕ)
    → c.due ≡ due
    → IsUp c accepted
    → IsUp (call_back c) accepted
unfolding call_back
call_back-IsUp c accepted zero e v = rw (call_back, e) v
call_back-IsUp c accepted (suc n) e v =
    rw (call_back, e)
      record {
        state = v.state;
        once =
            v.once
            ∙ ap is_odd
                (called n c.due (length c.seen) e (length-append c.seen (c.stream_up ∷ [])));
        told = λ _. latest-append false c.stream_up c.seen;
      }

Reached-IsUp : (c : Outbound) (accepted : List ℕ) → Reached c accepted → IsUp c accepted
unfolding step open_session
Reached-IsUp _ _ (begin c l u d h) = record {
  state = ground (arith, l, u);
  once = ground (arith, u, d, h);
  told = λ _. ap (latest false) h ∙ sym u;
}
Reached-IsUp _ _ (go_on c accepted (opens s) r (l, new)) =
    let v = Reached-IsUp c accepted r in
    record { state = ground (arith, v.state, l, new); once = v.once; told = v.told }
Reached-IsUp _ _ (go_on c accepted (accepts s) r en) =
    accepts-IsUp s c accepted (Reached-IsUp c accepted r)
Reached-IsUp _ _ (go_on c accepted (downs s) r l) =
    (downs-IsUp s c accepted l (Reached-IsUp c accepted r)).0
Reached-IsUp _ _ (go_on c accepted calls r en) =
    call_back-IsUp c accepted c.due refl (Reached-IsUp c accepted r)

-- At any time, the channel's stream is up if and only if there is a live one and the server has accepted
-- it. An acceptance of an earlier stream changes nothing. The calls of the callback that were made or are
-- due are odd in number exactly if the stream is up. A call comes after its change, when the state may
-- have changed again; but whenever none is due, the last one saw the present state, or none was made and
-- the stream is down.
pub stream_up_lem :
    (c : Outbound) (accepted : List ℕ) (s : ℕ)
    → Reached c accepted
    → (c.stream_up ≡ is_up c.live accepted)
      × (c.stream_up ≡ is_odd (c.due + length c.seen))
      × (c.due ≡ 0 → latest false c.seen ≡ c.stream_up)
      × ((is_live s c.live ≡ false) → set_stream_up s true c ≡ c)
unfolding set_stream_up
stream_up_lem c accepted s r =
    let v = Reached-IsUp c accepted r in (v.state, v.once, v.told, λ other. ground arith)

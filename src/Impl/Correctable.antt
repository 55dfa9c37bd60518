-- ===== src/Impl/Correctable.antt =====
-- internal/impl/correctable.go: a call whose result is updated as responses arrive. Channels are
-- numbered in the order in which they are made; the channel of `Done` is number 0.
pub mod Notify
pub mod Watched
pub mod Histories
use gorums.Prelude.{
  ℕ, suc, ◌||◌, Bool, true, false, Option, none, some, List, [], ◌∷◌, ◌++◌, if◌then◌else◌, leb,
  contains, comparable_nat,
}
use gorums.Prelude.Int.{ℤ, pos, negsuc}
use gorums.Prelude.Go.{Go, returns, panics, ◌>>=◌, ◌>>◌}
use gorums.Errors.{Error, skip_node, incomplete, NodeError, CallError, plain, quorum, ErrorsIs}
use gorums.Impl.Responses.{NodeResponse, Responses, at_least, check_threshold, mark_dispatched}

-- `<=` on int.
unfoldable pub int_leb : ℤ → ℤ → Bool
int_leb (pos a) (pos b) = leb a b
int_leb (pos a) (negsuc b) = false
int_leb (negsuc a) (pos b) = true
int_leb (negsuc a) (negsuc b) = leb b a

abbrev pub level_not_set : ℤ
level_not_set = negsuc 0

pub record Watcher : Type 0 where
  pub level : ℤ
  pub ch : ℕ

-- `channels` is the number of channels made, `closed` those that are closed.
pub record Correctable {ℓ} (A : Type ℓ) : Type ℓ where
  pub reply : Option A
  pub level : ℤ
  pub err : Option CallError
  pub done : Bool
  pub watchers : List (Option Watcher)
  pub channels : ℕ
  pub closed : List ℕ

-- `close`, which panics on a closed channel.
unfoldable pub close_channel : ℕ → List ℕ → Go (List ℕ)
close_channel ch closed = if contains closed ch then panics else returns (ch ∷ closed)

-- The loop of `update` that closes the channel of each watcher left.
unfoldable pub close_all : List (Option Watcher) → List ℕ → Go (List ℕ)
unfolding close_channel
close_all [] closed = returns closed
close_all (none ∷ ws) closed = close_all ws closed
close_all (some w ∷ ws) closed = close_channel w.ch closed >>= close_all ws

abbrev pub keep_first :
    Option Watcher → List (Option Watcher) × List ℕ → List (Option Watcher) × List ℕ
keep_first w (ws, closed) = (w ∷ ws, closed)

-- The loop of `update` that closes the channels of the watchers of a level that is reached.
unfoldable pub notify : ℤ → List (Option Watcher) → List ℕ → Go (List (Option Watcher) × List ℕ)
unfolding close_channel int_leb
notify level [] closed = returns ([], closed)
notify level (none ∷ ws) closed = notify level ws closed >>= λ r. returns (keep_first none r)
notify level (some w ∷ ws) closed = elim (int_leb w.level level) [
  | true ↦
      close_channel w.ch closed >>= λ now. notify level ws now >>= λ r. returns (keep_first none r)
  | false ↦ notify level ws closed >>= λ r. returns (keep_first (some w) r)
]

module _ {ℓ} {A : Type ℓ} where
  -- `Watch`, with the channel that it returns.
  unfoldable pub watch : ℤ → Correctable A → Go (Correctable A × ℕ)
  unfolding close_channel int_leb
  watch level c =
      if c.done || int_leb level c.level
      then (close_channel c.channels c.closed >>= λ closed.
          returns (record c { channels = suc c.channels; closed = closed }, c.channels))
      else returns (
        record c {
          channels = suc c.channels;
          watchers = c.watchers ++ some (record { level = level; ch = c.channels }) ∷ [];
        },
        c.channels,
      )

  unfoldable pub update :
      Option A → ℤ → Bool → Option CallError → Correctable A → Go (Correctable A)
  unfolding close_channel close_all notify
  update reply level done err c =
      let c' = record c { reply = reply; level = level; err = err; done = done } in
      if c.done
      then panics
      else if done
      then (close_channel 0 c.closed >>= λ closed.
          close_all c.watchers closed >>= λ closed'. returns (record c' { closed = closed' }))
      else (notify level c.watchers c.closed >>= λ r.
          returns (record c' { watchers = r.0; closed = r.1 }))

-- One call of `update`.
pub record Update {ℓ} (A : Type ℓ) : Type ℓ where
  pub reply : Option A
  pub level : ℤ
  pub done : Bool
  pub err : Option CallError

abbrev pub new_correctable {ℓ} : {A : Type ℓ} → Correctable A
new_correctable = record {
  reply = none;
  level = level_not_set;
  err = none;
  done = false;
  watchers = [];
  channels = 1;
  closed = [];
}

module _ {ℓ} {A : Type ℓ} (lib : ErrorsIs) where
  -- The updates that the goroutine of `Correctable` makes, in order.
  unfoldable pub correct_loop :
      ℤ → List (NodeResponse A) → Option A → ℕ → List NodeError → List (Update A)
  correct_loop n [] last count errs =
      (record {
        reply = last;
        level = pos count;
        done = true;
        err = some (quorum (record { cause = incomplete; errors = errs }));
      })
      ∷ []
  correct_loop n (result ∷ rest) last count errs = elim (lib.is result.err skip_node) [
    | true ↦ correct_loop n rest last count errs
    | false ↦ elim result.err [
      | some e ↦
          correct_loop n rest last count
            (errs ++ (record { cause = e; node_id = result.node_id }) ∷ [])
      | none ↦
          let later = correct_loop n rest result.value (suc count) errs in
          let is_done = at_least (suc count) n in
          (record { reply = result.value; level = pos (suc count); done = is_done; err = none })
          ∷ (if is_done then [] else later)
    ]
  ]

  -- `Correctable`: the handle after the call, and the updates of the call.
  unfoldable pub correctable : Responses A → ℤ → Go (Responses A × List (Update A))
  unfolding check_threshold mark_dispatched correct_loop
  correctable r n = do
    check_threshold n
    elim r.err [
      | some e ↦ returns (
        mark_dispatched r,
        (record { reply = none; level = level_not_set; done = true; err = some (plain e) }) ∷ [],
      )
      | none ↦ returns (mark_dispatched r, correct_loop n r.seq none 0 [])
    ]

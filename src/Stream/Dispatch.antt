-- ===== src/Stream/Dispatch.antt =====
-- internal/stream/dispatch.go: the queue that runs request handlers one at a time. Each operation
-- under the lock is one step, with the receive of a slot or the start of a goroutine that follows it.
pub mod Serial
pub mod History
mod Tests
use gorums.Prelude.{
  ℕ, zero, suc, ◌+◌, ◌-◌, ◌<◌, Bool, true, false, Option, none, some, List, [], ◌∷◌, ◌++◌,
  if◌then◌else◌, ltb, length, get_elem?,
}

-- A goroutine of `start`: the handler that it runs, and whether that handler's `once` was done.
pub record Goroutine : Type 0 where
  pub handler : ℕ
  pub once : Bool

-- `slots` is the number of tokens in the channel, of capacity `size`; `held` of them are of pushes
-- that do not have the lock yet. `stopped` is whether `done` is closed. `started` lists the
-- handlers in the order in which they were started.
pub record Dispatcher : Type 0 where
  pub size : ℕ
  pub slots : ℕ
  pub held : ℕ
  pub stopped : Bool
  pub queue : List ℕ
  pub running : Bool
  pub live : List Goroutine
  pub started : List ℕ

unfoldable pub new_dispatcher : ℕ → Dispatcher
new_dispatcher size = record {
  size = size;
  slots = 0;
  held = 0;
  stopped = false;
  queue = [];
  running = false;
  live = [];
  started = [];
}

-- A new goroutine of `start`.
unfoldable pub start : ℕ → Dispatcher → Dispatcher
start run d = record d {
  live = d.live ++ (record { handler = run; once = false }) ∷ [];
  started = d.started ++ run ∷ [];
}

unfoldable pub take : Dispatcher → Dispatcher × Option ℕ
take d =
    if d.stopped
    then (record d { slots = d.slots - length d.queue; queue = []; running = false }, none)
    else elim d.queue [
      | [] ↦ (record d { running = false }, none)
      | run ∷ rest ↦ (record d { queue = rest; slots = d.slots - 1 }, some run)
    ]

unfoldable pub next : Dispatcher → Dispatcher
unfolding take start
next d = let (d', run) = take d in elim run [ none ↦ d' | some r ↦ start r d' ]

-- The send of a token, by `push` and `tryPush`.
unfoldable pub claim : Dispatcher → Dispatcher
claim d = record d { slots = suc d.slots; held = suc d.held }

unfoldable pub admit : ℕ → Dispatcher → Dispatcher × Bool
unfolding start
admit run d =
    if d.stopped
    then (record d { slots = d.slots - 1; held = d.held - 1 }, false)
    else if d.running
    then (record d { queue = d.queue ++ run ∷ []; held = d.held - 1 }, true)
    else (start run (record d { running = true; slots = d.slots - 1; held = d.held - 1 }), true)

unfoldable pub try_push : ℕ → Dispatcher → Dispatcher × Bool
unfolding admit claim
try_push run d = if ltb d.slots d.size then admit run (claim d) else (d, false)

-- The goroutine at index i becomes the ones given.
unfoldable pub replace : ℕ → List Goroutine → List Goroutine → List Goroutine
replace i new [] = []
replace zero new (g ∷ gs) = new ++ gs
replace (suc i) new (g ∷ gs) = g ∷ replace i new gs

-- The handler of the goroutine at i calls its release function.
unfoldable pub release : ℕ → Dispatcher → Dispatcher
unfolding next replace
release i d = elim (get_elem? d.live i) [
  | none ↦ d
  | some g ↦
      if g.once
      then d
      else next (record d { live = replace i ((record g { once = true }) ∷ []) d.live })
]

-- The goroutine at i takes the next handler, or it ends.
unfoldable pub take_over : ℕ → Dispatcher × Option ℕ → Dispatcher
unfolding replace
take_over i (d, none) = record d { live = replace i [] d.live }
take_over i (d, some r) = record d {
  live = replace i ((record { handler = r; once = false }) ∷ []) d.live;
  started = d.started ++ r ∷ [];
}

-- The handler of the goroutine at i returns: the goroutine goes on with the next one, if the
-- handler was not released.
unfoldable pub finish : ℕ → Dispatcher → Dispatcher
unfolding take take_over replace
finish i d = elim (get_elem? d.live i) [
  | none ↦ d
  | some g ↦ if g.once then record d { live = replace i [] d.live } else take_over i (take d)
]

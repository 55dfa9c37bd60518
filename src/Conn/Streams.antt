-- ===== src/Conn/Streams.antt =====
-- internal/conn/node.go: the inbound streams of a node. A channel is named by a number.
pub mod Active
use gorums.Prelude.{
  ℕ, Bool, true, false, Option, none, some, List, [], ◌∷◌, ◌++◌, if◌then◌else◌, nat_beq, contains,
  comparable_nat,
}

-- `liveChannels`, oldest first, and the channel of the node's transport.
pub record Streams : Type 0 where
  pub live : List ℕ
  pub active : Option ℕ

abbrev pub no_streams : Streams
no_streams = record { live = []; active = none }

-- `attachStream`
unfoldable pub attach : ℕ → Streams → Streams
attach ch s = record { live = s.live ++ ch ∷ []; active = some ch }

-- `slices.Delete` at the first index of the channel.
unfoldable pub delete_first : ℕ → List ℕ → List ℕ
delete_first ch [] = []
delete_first ch (c ∷ cs) = if nat_beq c ch then cs else c ∷ delete_first ch cs

unfoldable pub last : List ℕ → Option ℕ
last [] = none
last (c ∷ []) = some c
last (c ∷ d ∷ cs) = last (d ∷ cs)

-- `liveChannels[len(liveChannels)-1]` becomes active, or no channel if none is left.
unfoldable pub activate : List ℕ → Streams × Bool
unfolding last
activate [] = (record { live = []; active = none }, true)
activate (c ∷ cs) = (record { live = c ∷ cs; active = last (c ∷ cs) }, false)

-- The function `detach` of `attachStream`: whether it removed the last live channel.
unfoldable pub detach : ℕ → Streams → Streams × Bool
unfolding delete_first activate
detach ch s = if contains s.live ch then activate (delete_first ch s.live) else (s, false)

-- ===== src/Stream/Transport/Answers.antt =====
-- internal/stream/transport.go: what becomes of a request that is enqueued on a node's transport.
use gorums.Prelude.{
  ℕ, ◌+◌, ◌≡◌, refl, sym, ◌∙◌, ap, subst, Bool, true, false, ◌&&◌, Option, none, some, [], ◌∷◌, map,
  arith, if_case,
}
use gorums.Prelude.Go.{panics, Returns, Returns-bind}
use gorums.Errors.{stream_down}
use gorums.Stream.Request.{Request, Contexts, want_server_response}
use gorums.Stream.SendQueue.{SendQueue, Wake, Ready}
use gorums.Stream.SendQueue.Counts
use gorums.Stream.SendQueue.Counts.{IsQueue, heard, unheard, count, audible, silent}
use gorums.Stream.SendQueue.Steps.{step-Accounted}
use gorums.Stream.Session.Calls.Moves.{count-reply}
use gorums.Stream.Transport.{Endpoint, Transport, enqueue, enqueue_via, enqueue_on}

-- The requests of a kind that a transport has queued, and those that it has answered with an error.
abbrev pub channel_heard : (Request → Bool) → Option Endpoint → ℕ
channel_heard f none = 0
channel_heard f (some e) = heard f e.queue

abbrev pub accounted : (Request → Bool) → Transport → ℕ
accounted f t = channel_heard f t.channel + count (audible f) (map (λ d. d.to) t.sent)

-- The push that waits can be woken so.
abbrev pub CanWake : Contexts → Bool → Request → Option Endpoint → Wake → Type 0
CanWake ctxs is_done req none wake = Unit
CanWake ctxs is_done req (some e) wake = Ready ctxs is_done req e.queue wake

abbrev pub WithinBounds : Option Endpoint → Type 0
WithinBounds none = Unit
WithinBounds (some e) = IsQueue e.queue

module _ (f : Request → Bool) (ctxs : Contexts) (is_done : Bool) (wake : Wake) (req : Request) where
  abbrev Queued : SendQueue → Endpoint → Type 0
  Queued q e = (heard f e.queue ≡ heard f q + count (audible f) (req ∷ [])) × IsQueue e.queue

  enqueue-Queued :
      (e : Endpoint)
      → (req.oneway && req.streaming) ≡ false
      → IsQueue e.queue
      → Ready ctxs is_done req e.queue wake
      → Returns (Queued e.queue) (enqueue wake req e)
  unfolding enqueue Counts.step Counts.taken count
  enqueue-Queued e ok v ready =
      let now = step-Accounted f ctxs is_done e.queue v (Counts.pushes req) tt in
      let waits = step-Accounted f ctxs is_done e.queue v (Counts.waits wake req) ready in
      if_case (Returns (Queued e.queue)) (req.oneway && req.streaming) _ _ (λ bad. cc)
        (λ _.
          if_case (Returns (Queued e.queue)) (want_server_response req) _ _
            (λ two_way. (omega (arith, now.0), now.2))
            (λ oneway. (omega (arith, waits.0), waits.2)))

  abbrev pub Accounted : Transport → Transport → Type 0
  Accounted t t' =
      (accounted f t' ≡ accounted f t + count (audible f) (req ∷ [])) × WithinBounds t'.channel

  via-Accounted :
      (ch : Option Endpoint) (t : Transport)
      → t.channel ≡ ch
      → (req.oneway && req.streaming) ≡ false
      → WithinBounds ch
      → CanWake ctxs is_done req ch wake
      → Returns (Accounted t) (enqueue_via wake req ch t)
  unfolding enqueue_via
  via-Accounted none t at ok v ready =
      (omega (arith, count-reply f t.sent req t.id stream_down), subst WithinBounds (sym at) tt)
  via-Accounted (some e) t at ok v ready =
      Returns-bind (Queued e.queue) (Accounted t) (enqueue wake req e) _
        (enqueue-Queued e ok v ready) (λ e' w. (ground (arith, at, w.0), w.1))

  via-panics :
      (e : Endpoint) (t : Transport)
      → (req.oneway && req.streaming) ≡ true
      → enqueue_via wake req (some e) t ≡ panics
  unfolding enqueue_via enqueue
  via-panics e t bad = ground arith

  -- A request that is not both one-way and streaming is accounted for once when it is enqueued: if it can
  -- hear of an error, then either the channel's queue holds it or it is answered with an error, where a
  -- transport without a channel answers with `ErrStreamDown`. The queue stays within its bounds. A
  -- request that is both panics on a transport with a channel.
  pub enqueue_on_lem :
      (t : Transport)
      → WithinBounds t.channel
      → CanWake ctxs is_done req t.channel wake
      → ((req.oneway && req.streaming) ≡ false → Returns (Accounted t) (enqueue_on wake req t))
        × ((req.oneway && req.streaming) ≡ true
            → (e : Endpoint) → t.channel ≡ some e
            → enqueue_on wake req t ≡ panics)
  enqueue_on_lem t v ready = (
    λ ok. via-Accounted t.channel t refl ok v ready,
    λ bad e at. ap (λ ch. enqueue_via wake req ch t) at ∙ via-panics e t bad,
  )

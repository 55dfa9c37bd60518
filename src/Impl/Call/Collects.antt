-- ===== src/Impl/Call/Collects.antt =====
-- internal/impl/call.go: the send confirmations of a one-way call.
use gorums.Prelude.{
  ℕ, zero, suc, ◌≡◌, refl, Bool, true, false, Option, none, some, List, [], ◌∷◌, ◌++◌,
  if◌then◌else◌, append_assoc, append-nil, sym, ◌∙◌, ap, subst, Option-cases, Bool-cases, inl, inr,
}
use gorums.Errors.{Error, skip_node, send_failure, NodeError, CallError, plain, quorum, ErrorsIs}
use gorums.Stream.Request.{Response}

-- What ends the wait for a confirmation: it arrives, or the context has ended.
pub data Wait : Type 0 where
  arrives : Response → Wait
  done : Error → Wait

-- `receive`, on the confirmations in the channel: what is left there, and a confirmation or an error.
pub data Received : Type 0 where
  got : Response → Received
  ended : Error → Received

unfoldable pub receive : List Response → Wait → List Response × Received
receive (r ∷ rest) wait = (rest, got r)
receive [] (arrives r) = ([], got r)
receive [] (done e) = ([], ended e)

-- The errors of a node error list with one confirmation more.
abbrev pub add_error_of : ErrorsIs → List NodeError → Response → Option Error → List NodeError
add_error_of lib errs r none = errs
add_error_of lib errs r (some e) =
    if lib.is (some e) skip_node
    then errs
    else errs ++ (record { cause = e; node_id = r.node_id }) ∷ []

abbrev pub add_error : ErrorsIs → List NodeError → Response → List NodeError
add_error lib errs r = add_error_of lib errs r r.err

abbrev pub send_error : List NodeError → Option CallError
send_error [] = none
send_error (e ∷ es) = some (quorum (record { cause = send_failure; errors = e ∷ es }))

module _ (lib : ErrorsIs) where
  -- The loop of `collect`: k rounds, with how each waits, and what arrives in the channel before it.
  unfoldable pub collect_loop :
      ℕ → (ℕ → List Response × Wait) → List Response → List NodeError → Option CallError
  unfolding receive
  collect_loop zero rounds chan errs = send_error errs
  collect_loop (suc k) rounds chan errs =
      let (arrived, wait) = rounds k in
      let (rest, received) = receive (chan ++ arrived) wait in
      elim received [
        | ended e ↦ some (plain e)
        | got r ↦ collect_loop k rounds rest (add_error lib errs r)
      ]

  -- `collect` of a call with the error, the kind and the size given.
  unfoldable pub collect :
      Option Error → Bool → ℕ → (ℕ → List Response × Wait) → List Response → Option CallError
  unfolding collect_loop receive
  collect (some e) unicast size rounds chan = some (plain e)
  collect none true size rounds chan =
      let (arrived, wait) = rounds size in
      elim (receive (chan ++ arrived) wait).1 [
        | ended e ↦ some (plain e)
        | got r ↦ elim r.err [ none ↦ none | some e ↦ some (plain e) ]
      ]
  collect none false size rounds chan = collect_loop size rounds chan []

  -- `Wait`, on the result of an earlier one.
  unfoldable pub wait_for :
      Option Error
      → Bool
      → ℕ
      → (ℕ → List Response × Wait)
      → List Response
      → Option (Option CallError)
      → Option CallError
  unfolding collect
  wait_for err unicast size rounds chan (some before) = before
  wait_for err unicast size rounds chan none = collect err unicast size rounds chan

  -- The errors of the nodes that failed, in the order of their confirmations: a node did not fail if
  -- it was sent to or skipped.
  unfoldable pub failures : List Response → List NodeError
  failures [] = []
  failures (r ∷ rs) =
      let rest = failures rs in
      elim r.err [
        | none ↦ rest
        | some e ↦
            if lib.is (some e) skip_node
            then rest
            else (record { cause = e; node_id = r.node_id }) ∷ rest
      ]

  -- What the rounds see, in order: the confirmations, and the error of the context if a round finds none and
  -- the context ends.
  pub data Confirmed (rounds : ℕ → List Response × Wait)
      : ℕ → List Response → List Response → Option Error → Type 0 where
    all_in : (chan : List Response) → Confirmed rounds 0 chan [] none
    buffered :
        (k : ℕ) (chan rest rs : List Response) (r : Response) (cut : Option Error)
        → chan ++ (rounds k).0 ≡ r ∷ rest
        → Confirmed rounds k rest rs cut
        → Confirmed rounds (suc k) chan (r ∷ rs) cut
    waited :
        (k : ℕ) (chan rs : List Response) (r : Response) (cut : Option Error)
        → chan ++ (rounds k).0 ≡ []
        → (rounds k).1 ≡ arrives r
        → Confirmed rounds k [] rs cut
        → Confirmed rounds (suc k) chan (r ∷ rs) cut
    cut_off :
        (k : ℕ) (chan : List Response) (e : Error)
        → chan ++ (rounds k).0 ≡ []
        → (rounds k).1 ≡ done e
        → Confirmed rounds (suc k) chan [] (some e)

  -- How the multicast ends.
  abbrev pub verdict : List NodeError → Option Error → Option CallError
  verdict [] none = none
  verdict (x ∷ xs) none = some (quorum (record { cause = send_failure; errors = x ∷ xs }))
  verdict errs (some e) = some (plain e)

  send_error-verdict : (errs : List NodeError) → send_error errs ≡ verdict errs none
  send_error-verdict [] = refl
  send_error-verdict (x ∷ xs) = refl

  failures_next :
      (errs : List NodeError) (r : Response) (rs : List Response)
      → add_error lib errs r ++ failures rs ≡ errs ++ failures (r ∷ rs)
  unfolding failures
  failures_next errs r rs = elim (Option-cases r.err) [
    | inl sent ↦ rw sent refl
    | inr (e, failed) ↦ elim (Bool-cases (lib.is (some e) skip_node)) [
      | inl skipped ↦ rw (failed, skipped) refl
      | inr other ↦
          rw (failed, other)
            (append_assoc errs ((record { cause = e; node_id = r.node_id }) ∷ []) (failures rs))
    ]
  ]

  -- What a round makes of what it receives.
  abbrev Ends :
      ℕ
      → (ℕ → List Response × Wait)
      → List NodeError
      → Option CallError
      → List Response × Received
      → Type 0
  Ends k rounds errs result q =
      (elim q.1 [
        | ended e ↦ some (plain e)
        | got r ↦ collect_loop k rounds q.0 (add_error lib errs r)
      ])
      ≡ result

  collect_loop_lem :
      (rounds : ℕ → List Response × Wait) (k : ℕ) (chan rs : List Response) (cut : Option Error)
      (errs : List NodeError)
      → Confirmed rounds k chan rs cut
      → collect_loop k rounds chan errs ≡ verdict (errs ++ failures rs) cut
  unfolding collect_loop receive failures
  collect_loop_lem rounds _ _ _ _ errs (all_in chan) =
      send_error-verdict errs ∙ ap (λ es. verdict es none) (sym (append-nil errs))
  collect_loop_lem rounds _ _ _ _ errs (buffered k chan rest rs r cut e more) =
      let Next = Ends k rounds errs (verdict (errs ++ failures (r ∷ rs)) cut) in
      subst (λ xs. Next (receive xs (rounds k).1)) (sym e)
        (collect_loop_lem rounds k rest rs cut (add_error lib errs r) more
          ∙ ap (λ es. verdict es cut) (failures_next errs r rs))
  collect_loop_lem rounds _ _ _ _ errs (waited k chan rs r cut e w more) =
      let Next = Ends k rounds errs (verdict (errs ++ failures (r ∷ rs)) cut) in
      subst (λ xs. Next (receive xs (rounds k).1)) (sym e)
        (subst (λ w. Next (receive [] w)) (sym w)
          (collect_loop_lem rounds k [] rs cut (add_error lib errs r) more
            ∙ ap (λ es. verdict es cut) (failures_next errs r rs)))
  collect_loop_lem rounds _ _ _ _ errs (cut_off k chan e empty w) =
      let Next = Ends k rounds errs (some (plain e)) in
      subst (λ xs. Next (receive xs (rounds k).1)) (sym empty)
        (subst (λ w. Next (receive [] w)) (sym w) refl)

  -- A multicast whose confirmations all come succeeds if every node was sent to or skipped. Otherwise it
  -- fails with a send failure, which lists the errors of the other nodes in the order in which they came,
  -- whether or not the context has ended. Only a round that finds no confirmation when the context ends
  -- makes it fail with the context's error.
  pub collect_lem :
      (rounds : ℕ → List Response × Wait) (size : ℕ) (chan rs : List Response) (cut : Option Error)
      → Confirmed rounds size chan rs cut
      → wait_for none false size rounds chan none ≡ verdict (failures rs) cut
  unfolding wait_for collect
  collect_lem rounds size chan rs cut c = collect_loop_lem rounds size chan rs cut [] c

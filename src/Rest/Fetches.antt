-- ===== src/Rest/Fetches.antt =====
-- The calls of `getUniverse` in data/TckrGatewaySource.ts and the answers to its requests, in any order.
use tckr.Prelude.{
  ℕ, zero, suc, ◌+◌, ◌≤◌, ◌≡◌, refl, Bool, true, false, Option, none, some, List, [], ◌∷◌, ◌++◌,
  ◌==◌, if◌then◌else◌, replicate, arith,
}
use tckr.Contracts.{SymbolUniverseResponse}
use tckr.Rest.{
  Response, Universe, UniverseOutput, fetch_universe, resolved, rejected, get_universe,
  universe_answered, settle, resolve_cached, universe_from,
}

pub data UniverseEvent : Type 0 where
  call : UniverseEvent
  answer : Response → UniverseEvent

abbrev pub universe_step : UniverseEvent → Universe → Universe × List UniverseOutput
universe_step call u = get_universe u
universe_step (answer response) u = universe_answered response u

unfoldable pub run : List UniverseEvent → Universe → Universe × List UniverseOutput
run [] u = (u, [])
run (e ∷ es) u =
    let after = universe_step e u in let rest = run es (after.0) in (rest.0, after.1 ++ rest.1)

-- The promises that are settled, and the requests that are sent.
unfoldable pub replies : List UniverseOutput → ℕ
replies [] = 0
replies (fetch_universe ∷ os) = replies os
replies (resolved universe ∷ os) = suc (replies os)
replies (rejected ∷ os) = suc (replies os)

unfoldable pub fetches : List UniverseOutput → ℕ
fetches [] = 0
fetches (fetch_universe ∷ os) = suc (fetches os)
fetches (resolved universe ∷ os) = fetches os
fetches (rejected ∷ os) = fetches os

unfoldable pub calls : List UniverseEvent → ℕ
calls [] = 0
calls (call ∷ es) = suc (calls es)
calls (answer response ∷ es) = calls es

unfoldable pub answers : List UniverseEvent → ℕ
answers [] = 0
answers (call ∷ es) = answers es
answers (answer response ∷ es) = suc (answers es)

-- The requests that have no answer yet.
abbrev pub in_flight : Universe → ℕ
in_flight u = if u.waiting == 0 then 0 else 1

in_flight-one : (u : Universe) → in_flight u ≤ 1
in_flight-one u = ground arith

replies-append : (os ps : List UniverseOutput) → replies (os ++ ps) ≡ replies os + replies ps
unfolding replies
replies-append [] ps = omega arith
replies-append (fetch_universe ∷ os) ps = replies-append os ps
replies-append (resolved universe ∷ os) ps = omega (replies-append os ps, arith)
replies-append (rejected ∷ os) ps = omega (replies-append os ps, arith)

fetches-append : (os ps : List UniverseOutput) → fetches (os ++ ps) ≡ fetches os + fetches ps
unfolding fetches
fetches-append [] ps = omega arith
fetches-append (fetch_universe ∷ os) ps = omega (fetches-append os ps, arith)
fetches-append (resolved universe ∷ os) ps = fetches-append os ps
fetches-append (rejected ∷ os) ps = fetches-append os ps

replies-replicate_resolved :
    (n : ℕ) (universe : SymbolUniverseResponse) → replies (replicate n (resolved universe)) ≡ n
unfolding replies
replies-replicate_resolved zero universe = refl
replies-replicate_resolved (suc n) universe = omega (replies-replicate_resolved n universe, arith)

replies-replicate_rejected : (n : ℕ) → replies (replicate n rejected) ≡ n
unfolding replies
replies-replicate_rejected zero = refl
replies-replicate_rejected (suc n) = omega (replies-replicate_rejected n, arith)

fetches-replicate_resolved :
    (n : ℕ) (universe : SymbolUniverseResponse) → fetches (replicate n (resolved universe)) ≡ 0
unfolding fetches
fetches-replicate_resolved zero universe = refl
fetches-replicate_resolved (suc n) universe = fetches-replicate_resolved n universe

fetches-replicate_rejected : (n : ℕ) → fetches (replicate n rejected) ≡ 0
unfolding fetches
fetches-replicate_rejected zero = refl
fetches-replicate_rejected (suc n) = fetches-replicate_rejected n

-- Of one event: what it settles with what waits after it is what waited and the call it is, and no
-- request is sent while one is in flight.
abbrev Settles : UniverseEvent → Universe → (Universe × List UniverseOutput) → Type 0
Settles e u after =
    (replies (after.1) + (after.0).waiting ≡ u.waiting + calls (e ∷ []))
    × (fetches (after.1) + in_flight u ≤ answers (e ∷ []) + in_flight (after.0))

call-Settles : (u : Universe) → Settles call u (get_universe u)
unfolding get_universe replies fetches calls answers
call-Settles u = go (u.cache) (u.waiting == 0) refl
  where
    go :
        (cache : Option SymbolUniverseResponse) (idle : Bool)
        → (u.waiting == 0) ≡ idle
        → Settles call u (resolve_cached cache u)
    go (some universe) idle e = (omega arith, omega arith)
    go none true e = rw e (omega arith, ground arith)
    go none false e = rw e (omega arith, ground arith)

answer-Settles :
    (response : Response) (u : Universe)
    → Settles (answer response) u (universe_answered response u)
unfolding universe_answered replies fetches calls answers
answer-Settles response u = go (u.waiting == 0) (universe_from response) refl
  where
    go :
        (idle : Bool) (universe : Option SymbolUniverseResponse)
        → (u.waiting == 0) ≡ idle
        → Settles (answer response) u (if idle then (u, []) else settle universe u)
    go true universe e = (omega arith, omega arith)
    go false (some universe) e = (
      omega (replies-replicate_resolved (u.waiting) universe, arith),
      omega (fetches-replicate_resolved (u.waiting) universe, in_flight-one u, arith),
    )
    go false none e = (
      omega (replies-replicate_rejected (u.waiting), arith),
      omega (fetches-replicate_rejected (u.waiting), in_flight-one u, arith),
    )

step-Settles : (e : UniverseEvent) (u : Universe) → Settles e u (universe_step e u)
step-Settles call u = call-Settles u
step-Settles (answer response) u = answer-Settles response u

calls-cons :
    (e : UniverseEvent) (es : List UniverseEvent) → calls (e ∷ es) ≡ calls (e ∷ []) + calls es
unfolding calls
calls-cons call es = omega arith
calls-cons (answer response) es = omega arith

answers-cons :
    (e : UniverseEvent) (es : List UniverseEvent) → answers (e ∷ es) ≡ answers (e ∷ []) + answers es
unfolding answers
answers-cons call es = omega arith
answers-cons (answer response) es = omega arith

-- Over any sequence of calls and answers, the promises settled and the callers that still wait are
-- together the callers that waited at first and the calls made since; and the requests sent, with
-- the one in flight at first, are at most the answers and the one in flight at the end.
pub run-settles :
    (es : List UniverseEvent) (u : Universe)
    → (replies ((run es u).1) + ((run es u).0).waiting ≡ u.waiting + calls es)
      × (fetches ((run es u).1) + in_flight u ≤ answers es + in_flight ((run es u).0))
unfolding run replies fetches calls answers
run-settles [] u = (omega arith, omega arith)
run-settles (e ∷ es) u =
    let after = universe_step e u in
    let one = step-Settles e u in
    let rest = run-settles es (after.0) in
    let more_replies = replies-append (after.1) ((run es (after.0)).1) in
    let more_fetches = fetches-append (after.1) ((run es (after.0)).1) in
    (
      omega (one.0, rest.0, more_replies, calls-cons e es, arith),
      omega (one.1, rest.1, more_fetches, answers-cons e es, arith),
    )

-- ===== src/ClientConfig/Shared.antt =====
-- data/config.ts: the shared source, and the calls that it receives from `getSharedSource`,
-- `resetSharedSource` and `reconnectSharedSource`, whatever their order.
use tckr.Prelude.{◌≡◌, refl, ap, ◌∙◌, Option, none, some, List, [], ◌∷◌, ◌++◌}
use tckr.ClientConfig.{Environment, MarketDataSource, no_overrides, create_market_data_source}

pub data Call : Type 0 where
  constructed : MarketDataSource → Call
  connect_called disconnect_called : Call

-- `sharedSource` and the calls made; what throws leaves both.
abbrev pub Shared : Type 0
Shared = Option MarketDataSource × List Call

abbrev pub start_with : Option MarketDataSource → Shared
start_with none = (none, [])
start_with (some source) = (some source, constructed source ∷ connect_called ∷ [])

unfoldable pub get_shared_source : Environment → Option MarketDataSource → Shared
unfolding create_market_data_source
get_shared_source env (some source) = (some source, [])
get_shared_source env none = start_with (create_market_data_source env no_overrides)

unfoldable pub reset_shared_source : Option MarketDataSource → Shared
reset_shared_source none = (none, [])
reset_shared_source (some source) = (none, disconnect_called ∷ [])

abbrev pub reconnected : Shared → Shared
reconnected (none, calls) = (none, calls)
reconnected (some source, calls) = (some source, calls ++ disconnect_called ∷ connect_called ∷ [])

unfoldable pub reconnect_shared_source : Environment → Option MarketDataSource → Shared
unfolding get_shared_source
reconnect_shared_source env shared = reconnected (get_shared_source env shared)

pub data Request : Type 0 where
  get reset reconnect : Request

abbrev pub serve : Environment → Request → Option MarketDataSource → Shared
serve env get = get_shared_source env
serve env reset = reset_shared_source
serve env reconnect = reconnect_shared_source env

-- Requests in turn; the environment may differ from one to the next.
unfoldable pub serve_each : List (Environment × Request) → Option MarketDataSource → Shared
unfolding get_shared_source reset_shared_source reconnect_shared_source
serve_each [] shared = (shared, [])
serve_each ((env, request) ∷ requests) shared =
    let first = serve env request shared in
    let rest = serve_each requests first.0 in (rest.0, first.1 ++ rest.1)

-- The life of the latest source: none yet, constructed or disconnected, and connected.
pub data Life : Type 0 where
  absent idle held : Life

-- The life after a call, and `none` where the call may not come: a source is only constructed where none
-- is connected, only connected where it is not connected, and only disconnected where it is.
abbrev pub after_call : Call → Life → Option Life
after_call (constructed source) absent = some idle
after_call (constructed source) idle = some idle
after_call (constructed source) held = none
after_call connect_called absent = none
after_call connect_called idle = some held
after_call connect_called held = none
after_call disconnect_called absent = none
after_call disconnect_called idle = none
after_call disconnect_called held = some idle

abbrev pub after_calls : List Call → Option Life → Option Life
after_calls [] life = life
after_calls (call ∷ calls) none = none
after_calls (call ∷ calls) (some life) = after_calls calls (after_call call life)

-- A source is shared just where one is connected.
abbrev pub Matches : Option MarketDataSource → Life → Type 0
Matches none absent = Unit
Matches none idle = Unit
Matches none held = ⊥
Matches (some source) absent = ⊥
Matches (some source) idle = ⊥
Matches (some source) held = Unit

abbrev pub IsLived : Life → Shared → Type 0
IsLived life (shared, calls) =
    (later : Life) × (after_calls calls (some life) ≡ some later) × Matches shared later

after_calls-append :
    (xs ys : List Call) (life : Option Life)
    → after_calls (xs ++ ys) life ≡ after_calls ys (after_calls xs life)
after_calls-append [] ys life = refl
after_calls-append (x ∷ xs) [] none = refl
after_calls-append (x ∷ xs) (y ∷ ys) none = refl
after_calls-append (x ∷ xs) ys (some life) = after_calls-append xs ys (after_call x life)

start_with-IsLived :
    (made : Option MarketDataSource) (life : Life)
    → Matches none life
    → IsLived life (start_with made)
start_with-IsLived none life h = (life, refl, h)
start_with-IsLived (some source) absent h = (held, refl, tt)
start_with-IsLived (some source) idle h = (held, refl, tt)
start_with-IsLived (some source) held h = elim h [ ]

get_shared_source-IsLived :
    (env : Environment) (shared : Option MarketDataSource) (life : Life)
    → Matches shared life
    → IsLived life (get_shared_source env shared)
unfolding get_shared_source
get_shared_source-IsLived env (some source) life h = (life, refl, h)
get_shared_source-IsLived env none life h =
    start_with-IsLived (create_market_data_source env no_overrides) life h

reset_shared_source-IsLived :
    (shared : Option MarketDataSource) (life : Life)
    → Matches shared life
    → IsLived life (reset_shared_source shared)
unfolding reset_shared_source
reset_shared_source-IsLived none life h = (life, refl, h)
reset_shared_source-IsLived (some source) absent h = elim h [ ]
reset_shared_source-IsLived (some source) idle h = elim h [ ]
reset_shared_source-IsLived (some source) held h = (idle, refl, tt)

reconnected-IsLived :
    (life : Life) (shared : Shared) → IsLived life shared → IsLived life (reconnected shared)
reconnected-IsLived life (none, calls) h = h
reconnected-IsLived life (some source, calls) (absent, e, h) = elim h [ ]
reconnected-IsLived life (some source, calls) (idle, e, h) = elim h [ ]
reconnected-IsLived life (some source, calls) (held, e, h) = (
  held,
  after_calls-append calls (disconnect_called ∷ connect_called ∷ []) (some life)
      ∙ ap (after_calls (disconnect_called ∷ connect_called ∷ [])) e,
  tt,
)

serve-IsLived :
    (env : Environment) (request : Request) (shared : Option MarketDataSource) (life : Life)
    → Matches shared life
    → IsLived life (serve env request shared)
unfolding reconnect_shared_source
serve-IsLived env get shared life h = get_shared_source-IsLived env shared life h
serve-IsLived env reset shared life h = reset_shared_source-IsLived shared life h
serve-IsLived env reconnect shared life h =
    reconnected-IsLived life (get_shared_source env shared)
      (get_shared_source-IsLived env shared life h)

serve_each_keeps :
    (requests : List (Environment × Request)) (shared : Option MarketDataSource) (life : Life)
    → Matches shared life
    → IsLived life (serve_each requests shared)
unfolding serve_each
serve_each_keeps [] shared life h = (life, refl, h)
serve_each_keeps ((env, request) ∷ requests) shared life h =
    let first = serve env request shared in
    let (later, lived, matches) = serve-IsLived env request shared life h in
    let (last, lived', matches') = serve_each_keeps requests first.0 later matches in
    (
      last,
      after_calls-append first.1 (serve_each requests first.0).1 (some life)
          ∙ ap (after_calls (serve_each requests first.0).1) lived
          ∙ lived',
      matches',
    )

-- Whatever the pages ask for, in whatever order: a source is constructed only where none is connected,
-- connected only where it is not connected yet, and disconnected only where it is connected; and
-- afterwards a source is shared just where one is connected.
pub serve_each-IsLived :
    (requests : List (Environment × Request)) → IsLived absent (serve_each requests none)
serve_each-IsLived requests = serve_each_keeps requests none absent tt

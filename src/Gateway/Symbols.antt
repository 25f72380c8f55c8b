-- ===== src/Gateway/Symbols.antt =====
-- The set of tracked symbols in data/TckrGatewaySource.ts.
use tckr.Prelude.{
  ◌≡◌, refl, ap, true, false, List, [], ◌∷◌, ◌++◌, arith, map, String, if◌then◌else◌, str_eq,
  eq_iff,
}
use tckr.Contracts.{Subscribed}
use tckr.JsMap.{has, add, delete}
use tckr.Gateway.Inbound.{rejection, reject_all, handle_subscribed}
use tckr.Gateway.State.{Gateway, error_event}

has_end :
    (k j : String) (m : List String) → has k (m ++ j ∷ []) ≡ (if has k m then true else str_eq j k)
unfolding has
has_end k j [] = ground arith
has_end k j (i ∷ m) = ground (arith, has_end k j m)

has-add :
    (k j : String) (m : List String) → has k (add j m) ≡ (if str_eq j k then true else has k m)
unfolding add has
has-add k j m = ground (arith, has_end k j m, eq_iff j k)

has-delete :
    (k j : String) (m : List String) → has k (delete j m) ≡ (if str_eq j k then false else has k m)
unfolding delete has
has-delete k j [] = ground arith
has-delete k j (i ∷ m) = ground (arith, has-delete k j m, eq_iff j k, eq_iff i k, eq_iff i j)

-- After an acknowledgement exactly the symbols that were tracked and not rejected are tracked, and
-- each rejected symbol is reported by one error, in their order.
pub handle_subscribed-tracks :
    (message : Subscribed) (s : Gateway) (symbol : String)
    → (has symbol (handle_subscribed message s).0.subscribed_symbols
        ≡ (if has symbol message.rejected then false else has symbol s.subscribed_symbols))
      × ((handle_subscribed message s).1
          ≡ map (λ rejected. error_event (rejection message.request_id rejected)) message.rejected)
unfolding handle_subscribed reject_all has
handle_subscribed-tracks message s symbol = (tracked message.rejected s, told message.rejected s)
  where
    tracked :
        (symbols : List String) (t : Gateway)
        → has symbol (reject_all message.request_id symbols t).0.subscribed_symbols
          ≡ (if has symbol symbols then false else has symbol t.subscribed_symbols)
    tracked [] t = refl
    tracked (rejected ∷ symbols) t = ground (
      arith,
      tracked symbols (record t { subscribed_symbols = delete rejected t.subscribed_symbols }),
      has-delete symbol rejected t.subscribed_symbols,
    )

    told :
        (symbols : List String) (t : Gateway)
        → (reject_all message.request_id symbols t).1
          ≡ map (λ rejected. error_event (rejection message.request_id rejected)) symbols
    told [] t = refl
    told (rejected ∷ symbols) t =
        ap (λ outputs. error_event (rejection message.request_id rejected) ∷ outputs)
          (told symbols _)

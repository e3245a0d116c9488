-- ===== src/CallRouter/Tests.antt =====
-- The router at concrete inputs.
use relavoi_backend.Base.{
  sym, ◌∙◌, ap, ◌≡◌, refl, String, true, false, [], ◌∷◌, none, arith, string_eq, contains, inr,
}
use relavoi_backend.Crypto.{decrypt_phone, hash_phone}
use relavoi_backend.CallRouter.{CallArgs, side_of, find_match, cached}
use relavoi_backend.CallRouter.Routing.{
  recall, settle, route_incoming_call, is_connected, matched_decision, live_decision, connection,
  destination,
}
use relavoi_backend.CallRouter.Forward.{Connects, route-Connects}
use relavoi_backend.CallRouter.Unique.{HasOneTenant, find_match_order}
use relavoi_backend.Examples.{
  call_answers, exchange, only_s1, one_order-IsApart, customer, plain, one_order,
}

abbrev order_call : CallArgs
order_call = record {
  proxy_number = "+2341";
  caller_phone = customer;
  tenant_hint = none;
  event_id = "e1";
}

new_event : recall plain call_answers order_call exchange ≡ none
unfolding recall cached
new_event = refl

connected :
    is_connected plain call_answers order_call
      (route_incoming_call plain call_answers order_call exchange).0.action
    ≡ true
unfolding route_incoming_call recall cached find_match side_of settle matched_decision live_decision
    destination decrypt_phone hash_phone connection
connected = refl

route-Connects_example :
    Connects plain call_answers order_call exchange
      (route_incoming_call plain call_answers order_call exchange).0
route-Connects_example = route-Connects plain call_answers order_call exchange new_event connected

same_members : (sid : String) → contains sid ("s0" ∷ "s1" ∷ []) ≡ contains sid ("s1" ∷ "s0" ∷ [])
unfolding contains
same_members sid = ground arith

one_order-HasOneTenant : HasOneTenant one_order ("s0" ∷ "s1" ∷ [])
unfolding HasOneTenant
one_order-HasOneTenant sid sid' m m' serves serves' =
    ap (λ s. (one_order.session s).tenant_id) (only_s1 sid serves ∙ sym (only_s1 sid' serves'))

find_match_order_example :
    find_match plain none customer (λ id. false) one_order ("s0" ∷ "s1" ∷ [])
    ≡ find_match plain none customer (λ id. false) one_order ("s1" ∷ "s0" ∷ [])
find_match_order_example =
    find_match_order plain none customer (λ id. false) one_order ("s0" ∷ "s1" ∷ [])
      ("s1" ∷ "s0" ∷ []) same_members (inr one_order-HasOneTenant) one_order-IsApart

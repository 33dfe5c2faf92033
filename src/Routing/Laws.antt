-- ===== src/Routing/Laws.antt =====
-- The last route or tunnel that was added for an address is the one that is found.
use zero_reserve.Base.{true, ◌≡◌, refl, Text, text_eq, if◌then◌else◌, Bool-cases, inl, inr}
use zero_reserve.Base.Dict.{lookup-assign, lookup-assign_ne}
use zero_reserve.Base.{text_eq_sound}
use zero_reserve.Orders.{success}
use zero_reserve.Routing.{TraceRouter, add_route, next_hop, has_route, add_tunnel, get_tunnel}

-- After addRoute the address has a route, by the friend that was given, and every other address has
-- the route that it had, or none; the tunnels are the same.
pub add_route-next_hop :
    (dest gateway other : Text) (r : TraceRouter)
    → let r' = add_route dest gateway r in
      (next_hop other r' ≡ (if text_eq other dest then gateway else next_hop other r))
      × (has_route other r' ≡ (if text_eq other dest then true else has_route other r))
      × (r'.tunnels ≡ r.tunnels)
unfolding add_route next_hop has_route
add_route-next_hop dest gateway other r = elim (Bool-cases (text_eq other dest)) [
  | inl e ↦
      rw
        (
          e,
          text_eq_sound other dest e,
          next_hop,
          has_route,
          lookup-assign r.routing_table dest gateway,
        )
        (refl, refl, refl)
  | inr e ↦
      rw (e, next_hop, has_route, lookup-assign_ne r.routing_table dest other gateway e)
        (refl, refl, refl)
]

-- After addTunnel the address has that tunnel, and every other address has the tunnel that it had,
-- or none; the routes are the same.
pub add_tunnel-get_tunnel :
    (dest other : Text) (gateways before : Text × Text) (r : TraceRouter)
    → let r' = add_tunnel dest gateways r in
      (get_tunnel other before r'
        ≡ (if text_eq other dest then (success, gateways) else get_tunnel other before r))
      × (r'.routing_table ≡ r.routing_table)
unfolding add_tunnel get_tunnel
add_tunnel-get_tunnel dest other gateways before r = elim (Bool-cases (text_eq other dest)) [
  | inl e ↦
      rw (e, text_eq_sound other dest e, get_tunnel, lookup-assign r.tunnels dest gateways)
        (refl, refl)
  | inr e ↦ rw (e, get_tunnel, lookup-assign_ne r.tunnels dest other gateways e) (refl, refl)
]

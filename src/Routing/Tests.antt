-- ===== src/Routing/Tests.antt =====
-- A router with one route and one tunnel.
use zero_reserve.Base.{codes, [], ◌∷◌, ◌≡◌, text_eq, true, if◌then◌else◌}
use zero_reserve.Orders.{success}
use zero_reserve.Routing.{TraceRouter, add_route, next_hop, has_route, add_tunnel, get_tunnel}
use zero_reserve.Routing.Laws.{add_route-next_hop, add_tunnel-get_tunnel}

abbrev known : TraceRouter
known = record {
  routing_table = (codes "order1", codes "bob") ∷ [];
  tunnels = (codes "order1", (codes "alice", codes "bob")) ∷ [];
}

first_hop :
    let r' = add_route (codes "order1") (codes "carol") known in
    (next_hop (codes "order2") r' ≡ (
      if text_eq (codes "order2") (codes "order1")
      then codes "carol"
      else next_hop (codes "order2") known))
    × (has_route (codes "order2") r' ≡ (
        if text_eq (codes "order2") (codes "order1")
        then true
        else has_route (codes "order2") known))
    × (r'.tunnels ≡ known.tunnels)
first_hop = add_route-next_hop (codes "order1") (codes "carol") (codes "order2") known

tunnel_found :
    let r' = add_tunnel (codes "order2") (codes "carol", codes "dave") known in
    (get_tunnel (codes "order1") ([], []) r' ≡ (
      if text_eq (codes "order1") (codes "order2")
      then (success, (codes "carol", codes "dave"))
      else get_tunnel (codes "order1") ([], []) known))
    × (r'.routing_table ≡ known.routing_table)
tunnel_found =
    add_tunnel-get_tunnel (codes "order2") (codes "order1") (codes "carol", codes "dave") ([], [])
      known

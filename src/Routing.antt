-- ===== src/Routing.antt =====
-- Router.h, TraceRouter.h and TraceRouter.cpp: which friend leads to a virtual address, and the two
-- neighbours of a tunnel in use.
pub mod Laws
mod Tests
use zero_reserve.Base.{Bool, true, false, [], Option, none, some, Text}
use zero_reserve.Base.Dict.{Dict, lookup, assign}
use zero_reserve.Orders.{RetVal, success, failure}

-- `routingTable` and `m_Tunnels`
pub record TraceRouter : Type 0 where
  pub routing_table : Dict Text
  pub tunnels : Dict (Text × Text)

-- TraceRouter::addRoute
unfoldable pub add_route : Text → Text → TraceRouter → TraceRouter
add_route dest gateway r = record r { routing_table = assign r.routing_table dest gateway }

-- TraceRouter::nextHop: the empty text where there is no route.
unfoldable pub next_hop : Text → TraceRouter → Text
unfolding lookup
next_hop dest r = elim (lookup r.routing_table dest) [ some gateway ↦ gateway | none ↦ [] ]

-- TraceRouter::hasRoute
unfoldable pub has_route : Text → TraceRouter → Bool
unfolding lookup
has_route dest r = elim (lookup r.routing_table dest) [ none ↦ false | some gateway ↦ true ]

-- Router::addTunnel
unfoldable pub add_tunnel : Text → Text × Text → TraceRouter → TraceRouter
add_tunnel dest gateways r = record r { tunnels = assign r.tunnels dest gateways }

-- Router::getTunnel, with the pair that the caller's variable holds before.
unfoldable pub get_tunnel : Text → Text × Text → TraceRouter → RetVal × (Text × Text)
unfolding lookup
get_tunnel dest before r = elim (lookup r.tunnels dest) [
  | none ↦ (failure, before)
  | some gateways ↦ (success, gateways)
]

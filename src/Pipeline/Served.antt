-- ===== src/Pipeline/Served.antt =====
-- src/proxy_conn.rs: `handle` serves, suspends and gives away only what it may.
use symphony.Prelude.{Bool, Option, List}
use symphony.Float.{Float64}
use symphony.Net.{IpAddr}
use symphony.Protection
use symphony.Failover.Spill.{Failover}
use symphony.Router.{RouteTable}
use symphony.Router.Spec.{IpNetwork}
use symphony.Pipeline.{Arrival, Handled}
use symphony.Pipeline.Verdicts.{IsSound}

module _ {F Config : Type 0} (fl : Float64 F) (contains : IpNetwork → IpAddr → Bool) where
  module _ (ingress : Option (List IpNetwork)) (check : IpAddr → Option Protection.Decision)
      (table : RouteTable F Config IpNetwork) (a : Arrival) where
    abbrev IsSoundly : Handled F Config → Type 0
    IsSoundly h = IsSound fl contains ingress check table a h.verdict h.forwarding

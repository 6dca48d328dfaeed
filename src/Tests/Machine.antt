-- ===== src/Tests/Machine.antt =====
-- An engine that meets the laws of `Fsm.Engine`: its documented behaviour as a function.
use go_hop_exchange.Prelude.{ap, ap₂}
use go_hop_exchange.Fsm.{Engine, settle, route}

abbrev pub reference : Engine
reference = record {
  fire = λ S rules get put act s. settle put (route (get s) rules) (act s);
  fire_refused = λ S rules get put act s h. ap (λ r. settle put r (act s)) h;
  fire_crashed = λ S rules get put act s t h a. ap₂ (settle put) h a;
  fire_moved = λ S rules get put act s x s' h a. ap₂ (settle put) h a;
  fire_stayed = λ S rules get put act s s' h a. ap₂ (settle put) h a;
  fire_recorded = λ S rules get put act s s' h a. ap₂ (settle put) h a;
}

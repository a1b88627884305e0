-- ===== src/Controller/Objects/Ports.antt =====
-- The ports and the rules of the routes of a microservice.
use text.Mathlib.Text.{◌==◌ as str_eq}
use kom_operator.Prelude.{
  String, ◌≡◌, ◌≢◌, refl, ap, subst, ◌∙◌, Option, none, some, List, [], ◌∷◌, ℤ, int_eq, int_eq_iff,
  All, items, arith, inl, inr, Bool-cases, if◌then◌else◌,
}
use kom_operator.Api.{Microservice, Http}
use kom_operator.Routes.{Route}
use kom_operator.Routes.Order.{HasDistinctPorts}
use kom_operator.Controller.Objects.{
  Loop, put_route, add_element, run_loop, empty_loop, objects_of, get_instance_objects,
}

-- The rule of a port among the routes.
pub rule_at : ℤ → List Route → Option String
rule_at port [] = none
rule_at port ((q, rule) ∷ rest) = if int_eq q port then some rule else rule_at port rest

rule_at-put_route :
    (port q : ℤ) (rule : String) (rs : List Route)
    → rule_at q (put_route port rule rs) ≡ (if int_eq port q then some rule else rule_at q rs)
unfolding rule_at put_route
rule_at-put_route port q rule [] = refl
rule_at-put_route port q rule ((x, r) ∷ rest) = ground (
  arith,
  int_eq_iff x port,
  int_eq_iff port q,
  int_eq_iff x q,
  rule_at-put_route port q rule rest,
)

-- The rule that the last route with this port and a rule gives, or else `before`.
pub last_rule : ℤ → List Http → Option String → Option String
last_rule port [] before = before
last_rule port (h ∷ rest) before = last_rule port rest (
    if str_eq h.rule ""
    then before
    else if int_eq h.port.container_port port
    then some h.rule
    else before)

run_loop-rule_at :
    (port : ℤ) (hs : List Http) (l : Loop)
    → rule_at port (run_loop hs l).routers ≡ last_rule port hs (rule_at port l.routers)
unfolding run_loop add_element last_rule
run_loop-rule_at port [] l = refl
run_loop-rule_at port (h ∷ rest) l =
    run_loop-rule_at port rest (add_element h l)
    ∙ ap (last_rule port rest)
        (ground (arith, rule_at-put_route h.port.container_port port h.rule l.routers))

put_route-All :
    (k port : ℤ) (rule : String) (rs : List Route)
    → k ≢ port
    → All (λ r. k ≢ r.0) rs
    → All (λ r. k ≢ r.0) (put_route port rule rs)
unfolding put_route
put_route-All k port rule [] other h = (other, tt)
put_route-All k port rule ((x, r) ∷ rest) other h = elim (Bool-cases (int_eq x port)) [
  | inl same ↦ rw same (other, h.1)
  | inr differs ↦ rw differs (h.0, put_route-All k port rule rest other h.1)
]

put_route-HasDistinctPorts :
    (port : ℤ) (rule : String) (rs : List Route)
    → HasDistinctPorts rs
    → HasDistinctPorts (put_route port rule rs)
unfolding put_route
put_route-HasDistinctPorts port rule [] h = (tt, tt)
put_route-HasDistinctPorts port rule ((x, r) ∷ rest) h = elim (Bool-cases (int_eq x port)) [
  | inl same ↦ rw same (subst (λ q. All (λ y. q ≢ y.0) rest) ((int_eq_iff x port).0 same) h.0, h.1)
  | inr differs ↦ rw differs (
    put_route-All x port rule rest (λ e. cc (differs, (int_eq_iff x port).1 e)) h.0,
    put_route-HasDistinctPorts port rule rest h.1,
  )
]

run_loop-HasDistinctPorts :
    (hs : List Http) (l : Loop)
    → HasDistinctPorts l.routers
    → HasDistinctPorts (run_loop hs l).routers
unfolding run_loop add_element
run_loop-HasDistinctPorts [] l d = d
run_loop-HasDistinctPorts (h ∷ rest) l d =
    run_loop-HasDistinctPorts rest (add_element h l) (elim (Bool-cases (str_eq h.rule "")) [
      | inl empty ↦ rw empty d
      | inr given ↦ rw given (put_route-HasDistinctPorts h.port.container_port h.rule l.routers d)
    ])

routers_of :
    (cr : Microservice) (hs : List Http) (port : ℤ)
    → HasDistinctPorts (objects_of cr hs).routers
      × (rule_at port (objects_of cr hs).routers ≡ last_rule port hs none)
unfolding objects_of last_rule rule_at
routers_of cr [] port = (tt, refl)
routers_of cr (h ∷ rest) port = (
  run_loop-HasDistinctPorts (h ∷ rest) empty_loop tt,
  run_loop-rule_at port (h ∷ rest) empty_loop,
)

-- The routes of a microservice have distinct ports, and a port has the rule of the last route of
-- the specification that has this port and a rule that is not empty, or no rule if there is none.
pub instance_routers_lem :
    (cr : Microservice) (port : ℤ)
    → HasDistinctPorts (get_instance_objects cr).routers
      × (rule_at port (get_instance_objects cr).routers
          ≡ last_rule port (items cr.spec.container.routing.http) none)
unfolding get_instance_objects
instance_routers_lem cr port = routers_of cr (items cr.spec.container.routing.http) port

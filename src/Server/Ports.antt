-- ===== src/Server/Ports.antt =====
-- src/server.js: which port's binding a request is answered by.
use strong_soap.Common.{
  String, ◌≡◌, refl, Option, none, some, List, [], ◌∷◌, ◌++◌, if◌then◌else◌, ◌==◌, Bool-cases, inl,
  inr, ap, ◌∙◌, sym, arith,
}
use strong_soap.Common.Dict.{Dict}
use strong_soap.Server.{
  Binding, Port, Search, without_slash, try_ports, try_services, find_binding, unless_found,
  first_binding, kept_first,
}

-- All ports in their order, each with its service's name and its own.
pub record Place : Type 0 where
  pub service : String
  pub name : String
  pub port : Port

abbrev pub ports_of : String → Dict Port → List Place
ports_of service [] = []
ports_of service ((name, port) ∷ ports) =
    record { service = service; name = name; port = port } ∷ ports_of service ports

abbrev pub places : Dict (Dict Port) → List Place
places [] = []
places ((service, ports) ∷ services) = ports_of service ports ++ places services

abbrev service_of : Option Place → String
service_of none = ""
service_of (some x) = x.service

-- The first port at the path.
abbrev pub at_path : String → List Place → Option Place
at_path pathname [] = none
at_path pathname (x ∷ l) =
    if without_slash x.port.pathname == pathname then some x else at_path pathname l

abbrev pub first_port_of : Option Port → List Place → Option Port
first_port_of (some p) l = some p
first_port_of none [] = none
first_port_of none (x ∷ l) = some x.port

abbrev pub last_port_name : Option String → List Place → Option String
last_port_name o [] = o
last_port_name o (x ∷ l) = last_port_name (some x.name) l

abbrev pub last_service_name : Option String → Dict (Dict Port) → Option String
last_service_name o [] = o
last_service_name o ((name, ports) ∷ services) = last_service_name (some name) services

-- What the search ends with: the port that it found, or the names that it tried last and the binding of
-- the first port.
abbrev pub Sought :
    Option Place → Option String → List Place → Search → Search × Option Binding → Type 0
Sought (some x) service l s r =
    (r.1 ≡ some x.port.binding)
    × ((r.0.service_name ≡ some x.service) × (r.0.port_name ≡ some x.name))
Sought none service l s r =
    (r.1 ≡ first_binding (first_port_of s.first_port l))
    × ((r.0.service_name ≡ service) × (r.0.port_name ≡ last_port_name s.port_name l))

-- The same for one service, whose name the search has.
abbrev Tried : Option Place → List Place → Search → Search × Option Binding → Type 0
Tried (some x) l s r =
    (r.1 ≡ some x.port.binding)
    × ((r.0.service_name ≡ s.service_name) × (r.0.port_name ≡ some x.name))
Tried none l s r =
    (r.1 ≡ none)
    × ((r.0.service_name ≡ s.service_name)
        × ((r.0.port_name ≡ last_port_name s.port_name l)
            × (r.0.first_port ≡ first_port_of s.first_port l)))

first_port_of-step :
    (o : Option Port) (x : Place) (l : List Place)
    → first_port_of (kept_first o x.port) l ≡ first_port_of o (x ∷ l)
first_port_of-step none x l = refl
first_port_of-step (some p) x l = refl

first_port_of-nil : (o : Option Port) → o ≡ first_port_of o []
first_port_of-nil none = refl
first_port_of-nil (some p) = refl

first_port_of-append :
    (o : Option Port) (l m : List Place)
    → first_port_of (first_port_of o l) m ≡ first_port_of o (l ++ m)
first_port_of-append (some p) l m = refl
first_port_of-append none [] m = refl
first_port_of-append none (x ∷ l) m = refl

last_port_name-append :
    (o : Option String) (l m : List Place)
    → last_port_name (last_port_name o l) m ≡ last_port_name o (l ++ m)
last_port_name-append o [] m = refl
last_port_name-append o (x ∷ l) m = last_port_name-append (some x.name) l m

Tried-step :
    (o : Option Place) (x : Place) (l : List Place) (s : Search) (r : Search × Option Binding)
    → Tried o l
        (record s { port_name = some x.name; first_port = kept_first s.first_port x.port })
        r
    → Tried o (x ∷ l) s r
Tried-step (some y) x l s r h = h
Tried-step none x l s r (b, (sv, (name, first))) =
    (b, (sv, (name, first ∙ first_port_of-step s.first_port x l)))

try_ports-Tried :
    (pathname service : String) (ports : Dict Port) (s : Search)
    → Tried
        (at_path pathname (ports_of service ports))
        (ports_of service ports)
        s
        (try_ports pathname ports s)
unfolding try_ports
try_ports-Tried pathname service [] s = (refl, (refl, (refl, first_port_of-nil s.first_port)))
try_ports-Tried pathname service ((name, port) ∷ ports) s =
    let x : Place = record { service = service; name = name; port = port } in
    let next : Search = record s {
      port_name = some name;
      first_port = kept_first s.first_port port;
    } in
    elim (Bool-cases (without_slash port.pathname == pathname)) [
      | inl here ↦ rw here (refl, (refl, refl))
      | inr on ↦ rw on (
          Tried-step (at_path pathname (ports_of service ports)) x (ports_of service ports) s
            (try_ports pathname ports next) (try_ports-Tried pathname service ports next))
    ]

at_path-service :
    (pathname service : String) (ports : Dict Port) (x : Place)
    → at_path pathname (ports_of service ports) ≡ some x
    → x.service ≡ service
at_path-service pathname service [] x h = absurd (cc h)
at_path-service pathname service ((name, port) ∷ ports) x h =
    elim (Bool-cases (without_slash port.pathname == pathname)) [
      | inl here ↦
          let e : some (record { service = service; name = name; port = port }) ≡ some x =
            rw here at h in
          ap service_of (sym e)
      | inr on ↦ at_path-service pathname service ports x (rw on at h)
    ]

abbrev or_place : Option Place → Option Place → Option Place
or_place (some x) o = some x
or_place none o = o

at_path-append :
    (pathname : String) (l m : List Place)
    → at_path pathname (l ++ m) ≡ or_place (at_path pathname l) (at_path pathname m)
at_path-append pathname [] m = refl
at_path-append pathname (x ∷ l) m = ground (arith, at_path-append pathname l m)

-- One round of the outer loop.
unless_found-Sought :
    (name : String) (service : Option String) (o o' : Option Place) (l m : List Place) (s : Search)
    (r : Search × Option Binding) (next : Search → Search × Option Binding)
    → Tried o l (record s { service_name = some name }) r
    → ((x : Place) → o ≡ some x → x.service ≡ name)
    → ((s' : Search) → s'.service_name ≡ some name → Sought o' service m s' (next s'))
    → Sought (or_place o o') service (l ++ m) s (unless_found r next)
unless_found-Sought name service (some x) o' l m s (s', some b) next (found, (sv, p)) same k =
    (found, (sv ∙ ap some (sym (same x refl)), p))
unless_found-Sought name service (some x) o' l m s (s', none) next (found, _) same k =
    absurd (cc found)
unless_found-Sought name service none o' l m s (s', some b) next (found, _) same k =
    absurd (cc found)
unless_found-Sought name service none (some y) l m s (s', none) next (_, (sv, _)) same k = k s' sv
unless_found-Sought name service none none l m s (s', none) next (_, (sv, (p, first))) same k =
    let (b, (named, last)) = k s' sv in
    (
      b
          ∙ ap (λ o. first_binding (first_port_of o m)) first
          ∙ ap first_binding (first_port_of-append s.first_port l m),
      (named, last ∙ ap (λ o. last_port_name o m) p ∙ last_port_name-append s.port_name l m),
    )

try_services-Sought :
    (pathname : String) (services : Dict (Dict Port)) (s : Search) (o : Option String)
    → s.service_name ≡ o
    → Sought
        (at_path pathname (places services))
        (last_service_name o services)
        (places services)
        s
        (try_services pathname services s)
unfolding try_services
try_services-Sought pathname [] s o e =
    (ap first_binding (first_port_of-nil s.first_port), (e, refl))
try_services-Sought pathname ((name, ports) ∷ services) s o e =
    let l = ports_of name ports in
    rw (at_path-append pathname l (places services)) (
      unless_found-Sought name (last_service_name (some name) services) (at_path pathname l)
        (at_path pathname (places services)) l (places services) s
        (try_ports pathname ports (record s { service_name = some name }))
        (λ s'. try_services pathname services s')
        (try_ports-Tried pathname name ports (record s { service_name = some name }))
        (at_path-service pathname name ports)
        (λ s' named. try_services-Sought pathname services s' (some name) named))

-- The binding is that of the first port at the request's path, and the names are that port's and its
-- service's. Without such a port the binding is that of the first of all ports, if there is one, but
-- the names are those of the last service and of the last port.
pub find_binding-Sought :
    (pathname : String) (services : Dict (Dict Port))
    → Sought
        (at_path pathname (places services))
        (last_service_name none services)
        (places services)
        (record { service_name = none; port_name = none; first_port = none })
        (find_binding pathname services)
unfolding find_binding
find_binding-Sought pathname services =
    try_services-Sought pathname services
      (record { service_name = none; port_name = none; first_port = none }) none refl

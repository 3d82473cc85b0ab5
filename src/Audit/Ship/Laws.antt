-- ===== src/Audit/Ship/Laws.antt =====
-- What the shipper lets out.
use auto_heal.Prelude.{
  Bool-cases, GrowsBy, GrowsBy-trans, List, Option-cases, [], append-nil, arith, if◌then◌else◌, inl,
  inr, not, refl, sym, true, ℕ, ◌&&◌, ◌++◌, ◌==◌, ◌∷◌, ◌≡◌,
}
use auto_heal.Value.{Fields, dict_at, end, field, flag_at, get_or, null, str, truthy, update}
use auto_heal.Audit.Ship.{
  Shipped, Shipper, Sinks, connected, emitted, has_handler, key_of, requested, resolve_headers,
  ship, ship_http, ship_syslog, to_ecs,
}

-- The sink is enabled, its protocol or its address is there, and the document is the entry's.
abbrev pub IsMeant : Sinks → Fields → Fields → Shipped → Type 0
IsMeant o config e (connected key facility) =
    flag_at "enabled" (dict_at "syslog" (dict_at "shipping" config)) ≡ true
IsMeant o config e (emitted key doc) =
    (flag_at "enabled" (dict_at "syslog" (dict_at "shipping" config)) ≡ true)
    × (key ≡ key_of (dict_at "syslog" (dict_at "shipping" config)))
    × (doc ≡ to_ecs o e)
IsMeant o config e (requested method url doc headers) =
    (flag_at "enabled" (dict_at "http" (dict_at "shipping" config)) ≡ true)
    × (url ≡ get_or "url" null (dict_at "http" (dict_at "shipping" config)))
    × (truthy url ≡ true)
    × (doc ≡ to_ecs o e)

nothing_new : {A : Type 0} → (P : A → Type 0) (n : ℕ) (log : List A) → GrowsBy P n log log
nothing_new P n log = ([], sym (append-nil log), tt, omega arith)

module _ (o : Sinks) (config e : Fields) where
  ship_syslog-GrowsBy :
      (s : Shipper)
      → flag_at "enabled" (dict_at "syslog" (dict_at "shipping" config)) ≡ true
      → GrowsBy
          (IsMeant o config e)
          2
          s.log
          (ship_syslog o (dict_at "syslog" (dict_at "shipping" config)) e s).log
  unfolding ship_syslog
  ship_syslog-GrowsBy s on =
      let cfg = dict_at "syslog" (dict_at "shipping" config) in
      let key = key_of cfg in
      elim (Bool-cases (has_handler key s.handler)) [
        | inl there ↦
            rw (there, ship_syslog)
              (emitted key (to_ecs o e) ∷ [], refl, ((on, refl, refl), tt), omega arith)
        | inr absent ↦ elim (Bool-cases (not (key.2 == "udp") && not (key.2 == "tcp"))) [
          | inl unsupported ↦
              rw (absent, ship_syslog)
                (rw (unsupported, ship_syslog) (nothing_new (IsMeant o config e) 2 s.log))
          | inr supported ↦ elim (Bool-cases (o.connects s.log key)) [
            | inl made ↦
                rw (absent, ship_syslog)
                  (rw (supported, ship_syslog)
                    (rw (made, ship_syslog)
                      (
                        connected key (get_or "facility" (str "local0") cfg)
                            ∷ emitted key (to_ecs o e)
                            ∷ [],
                        refl,
                        (on, ((on, refl, refl), tt)),
                        omega arith,
                      )))
            | inr failed ↦
                rw (absent, ship_syslog)
                  (rw (supported, ship_syslog)
                    (rw (failed, ship_syslog) (nothing_new (IsMeant o config e) 2 s.log)))
          ]
        ]
      ]

  ship_http-GrowsBy :
      (s : Shipper)
      → flag_at "enabled" (dict_at "http" (dict_at "shipping" config)) ≡ true
      → GrowsBy
          (IsMeant o config e)
          1
          s.log
          (ship_http o (dict_at "http" (dict_at "shipping" config)) e s).log
  unfolding ship_http
  ship_http-GrowsBy s on =
      let cfg = dict_at "http" (dict_at "shipping" config) in
      elim (Bool-cases (truthy (get_or "url" null cfg))) [
        | inr nowhere ↦ rw (nowhere, ship_http) (nothing_new (IsMeant o config e) 1 s.log)
        | inl somewhere ↦ elim (Option-cases (resolve_headers o (dict_at "headers" cfg))) [
          | inl unresolved ↦
              rw (somewhere, ship_http)
                (rw (unresolved, ship_http) (nothing_new (IsMeant o config e) 1 s.log))
          | inr (headers, resolved) ↦
              rw (somewhere, ship_http)
                (rw (resolved, ship_http)
                  (
                    requested (get_or "method" (str "POST") cfg) (get_or "url" null cfg)
                          (to_ecs o e)
                          (update (field "Content-Type" (str "application/json") end) headers)
                        ∷ [],
                    refl,
                    ((on, refl, somewhere, refl), tt),
                    omega arith,
                  ))
        ]
      ]

-- The shipper after its first sink
abbrev after_syslog : Sinks → Fields → Fields → Shipper → Shipper
after_syslog o config e s =
    let cfg = dict_at "syslog" (dict_at "shipping" config) in
    if flag_at "enabled" cfg then ship_syslog o cfg e s else s

after_syslog-GrowsBy :
    (o : Sinks) (config e : Fields) (s : Shipper)
    → GrowsBy (IsMeant o config e) 2 s.log (after_syslog o config e s).log
after_syslog-GrowsBy o config e s =
    elim (Bool-cases (flag_at "enabled" (dict_at "syslog" (dict_at "shipping" config)))) [
      | inl on ↦ rw (on, after_syslog) (ship_syslog-GrowsBy o config e s on)
      | inr off ↦ rw (off, after_syslog) (nothing_new (IsMeant o config e) 2 s.log)
    ]

-- Shipping an entry lets out at most three things, each to a sink that is enabled and configured:
-- a connection to syslog, the entry's document over it, and the document by HTTP.
pub ship-GrowsBy :
    (o : Sinks) (config e : Fields) (s : Shipper)
    → GrowsBy (IsMeant o config e) 3 s.log (ship o config e s).log
unfolding ship
ship-GrowsBy o config e s =
    let http_on = flag_at "enabled" (dict_at "http" (dict_at "shipping" config)) in
    let s1 = after_syslog o config e s in
    GrowsBy-trans (IsMeant o config e) 2 1 s.log s1.log (ship o config e s).log
      (after_syslog-GrowsBy o config e s)
      (elim (Bool-cases http_on) [
        | inl on ↦ rw (on, ship) (ship_http-GrowsBy o config e s1 on)
        | inr off ↦ rw (off, ship) (nothing_new (IsMeant o config e) 1 s1.log)
      ])

-- Once a document went out by syslog, the next one to the same place goes over the same
-- connection, without making another.
pub ship_syslog-ship_syslog :
    (o : Sinks) (cfg e f : Fields) (s : Shipper)
    → has_handler (key_of cfg) (ship_syslog o cfg e s).handler ≡ true
    → (ship_syslog o cfg f (ship_syslog o cfg e s)).log
      ≡ (ship_syslog o cfg e s).log ++ emitted (key_of cfg) (to_ecs o f) ∷ []
unfolding ship_syslog
ship_syslog-ship_syslog o cfg e f s there = rw (there, ship_syslog) refl

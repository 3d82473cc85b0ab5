-- ===== src/Service/Query/Laws.antt =====
-- What a query of the audit log returns.
use auto_heal.Prelude.{
  Bool-cases, List, String, [], ap, arith, inl, inr, leb, max, pos_part, refl, select, some, suc,
  sym, take, true, zero, ℕ, ◌-◌, ◌∷◌, ◌≡◌,
}
use auto_heal.Auth.{get_role_from_api_key, has_permission}
use auto_heal.Audit.{Line}
use auto_heal.Service.State.{Env}
use auto_heal.Service.Query.{Query, collect, get_audit, is_wanted}

-- The results still wanted; one is returned even where the limit is not positive.
abbrev pub at_least_one : ℕ → ℕ → ℕ
at_least_one limit found = max 1 (limit - found)

take_nil : (n : ℕ) → take {A = Line} n [] ≡ []
take_nil zero = refl
take_nil (suc n) = refl

collect-eq-take :
    (limit : ℕ) (q : Query) (found : ℕ) (log : List Line)
    → collect limit q found log ≡ take (at_least_one limit found) (select (is_wanted q) log)
unfolding collect
collect-eq-take limit q found [] = sym (take_nil (at_least_one limit found))
collect-eq-take limit q found (l ∷ older) = elim (Bool-cases (is_wanted q l)) [
  | inr passed ↦ rw (passed, collect) (collect-eq-take limit q found older)
  | inl wanted ↦ elim (Bool-cases (leb limit (suc found))) [
    | inl last ↦
        let one : at_least_one limit found ≡ 1 = ground arith in
        rw (wanted, collect) (rw (last, collect) (rw one refl))
    | inr not_last ↦
        let more : at_least_one limit found ≡ suc (at_least_one limit (suc found)) = ground arith in
        rw (wanted, collect)
          (rw (not_last, collect)
            (rw more (ap (λ ls. l ∷ ls) (collect-eq-take limit q (suc found) older))))
  ]
]

-- For a key that may read the log, a query returns the newest lines that its filters let through,
-- in order, up to its limit, but one where the limit is not positive.
pub get_audit-eq-newest :
    (env : Env) (api_key : String) (q : Query) (log : List Line)
    → has_permission env.source (get_role_from_api_key env.source api_key) "audit_read" ≡ true
    → get_audit env api_key q (some log)
      ≡ some (take (at_least_one (pos_part q.limit) 0) (select (is_wanted q) log))
unfolding get_audit
get_audit-eq-newest env api_key q log may =
    ground (arith, collect-eq-take (pos_part q.limit) q 0 log)

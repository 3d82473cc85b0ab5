-- ===== src/Executor/Kube/Drain/Loop.antt =====
-- What the eviction loop of a drain has done where it ends without failures.

use auto_heal.Prelude.{
  Bool, Bool-cases, List, String, [], ap, append-nil, append_assoc, false, inl, inr, map, not, refl,
  select, sym, true, ◌++◌, ◌∙◌, ◌∷◌, ◌≡◌, ◌≢◌,
}
use auto_heal.Executor.Outside.{
  Event, KubeAnswer, KubeCall, Pod, World, api_error, called, client_error, done, evict, pods,
}
use auto_heal.Executor.Kube.Drain.{Tally, evict_all, is_daemon}
use auto_heal.Executor.Kube.Verbs.{reason_of}

-- The cluster accepts a call.
abbrev pub accepts : KubeAnswer → Bool
accepts (api_error status reason body) = false
accepts (client_error e) = false
accepts done = true
accepts (pods ps) = true

-- The pods that no DaemonSet owns
abbrev pub movable : List Pod → List Pod
movable = select (λ p. not (is_daemon p))

abbrev pub evictions : List Pod → List Event
evictions = map (λ p. called (evict p.name p.namespace))

-- The cluster accepts the evictions of these pods, one after the other.
unfoldable pub AllEvicted : World → List Event → List Pod → Type 0
AllEvicted w events [] = Unit
AllEvicted w events (p ∷ ps) =
    (accepts (w.kube events (evict p.name p.namespace)) ≡ true)
    × AllEvicted w (events ++ called (evict p.name p.namespace) ∷ []) ps

-- The pod's eviction, and the events after it
abbrev eviction : Pod → KubeCall
eviction p = evict p.name p.namespace

abbrev after : List Event → Pod → List Event
after events p = events ++ called (eviction p) ∷ []

abbrev add_skipped : Pod → Tally → Tally
add_skipped p t = record t { skipped = t.skipped ++ p.name ∷ [] }

abbrev add_evicted : Pod → Tally → Tally
add_evicted p t = record t { evicted = t.evicted ++ p.name ∷ [] }

abbrev add_failed : Pod → String → Tally → Tally
add_failed p reason t = record t { failed = t.failed ++ (p.name, reason) ∷ [] }

-- What the loop does with one pod
data OnePod (w : World) (p : Pod) (ps : List Pod) (t : Tally) (events : List Event) : Type 0 where
  skips :
      is_daemon p ≡ true
      → evict_all w (p ∷ ps) t events ≡ evict_all w ps (add_skipped p t) events
      → OnePod w p ps t events
  evicts :
      is_daemon p ≡ false
      → accepts (w.kube events (eviction p)) ≡ true
      → evict_all w (p ∷ ps) t events ≡ evict_all w ps (add_evicted p t) (after events p)
      → OnePod w p ps t events
  fails :
      (reason : String)
      → evict_all w (p ∷ ps) t events ≡ evict_all w ps (add_failed p reason t) (after events p)
      → OnePod w p ps t events
  stops :
      (e : String)
      → evict_all w (p ∷ ps) t events ≡ (inr e, after events p)
      → OnePod w p ps t events

one_pod :
    (w : World) (p : Pod) (ps : List Pod) (t : Tally) (events : List Event) → OnePod w p ps t events
unfolding evict_all
one_pod w p ps t events = elim (Bool-cases (is_daemon p)) [
  | inl daemon ↦ skips daemon (rw (daemon, evict_all) refl)
  | inr plain ↦ answered (w.kube events (eviction p)) refl plain
]
  where
    answered :
        (a : KubeAnswer)
        → w.kube events (eviction p) ≡ a
        → is_daemon p ≡ false
        → OnePod w p ps t events
    answered done e plain = evicts plain (rw e refl) (rw (plain, e, evict_all) refl)
    answered (pods qs) e plain = evicts plain (rw e refl) (rw (plain, e, evict_all) refl)
    answered (api_error status reason body) e plain =
        fails (reason_of w status reason body) (rw (plain, e, evict_all) refl)
    answered (client_error x) e plain = stops x (rw (plain, e, evict_all) refl)

-- The list of failures only grows.
failed-evict_all :
    (w : World) (ps : List Pod) (t u : Tally) (events : List Event)
    → (evict_all w ps t events).0 ≡ inl u
    → (more : List (String × String)) × (u.failed ≡ t.failed ++ more)
unfolding evict_all
failed-evict_all w [] t u events e =
    let same : u ≡ t = cc e in ([], ap (λ (x : Tally). x.failed) same ∙ sym (append-nil t.failed))
failed-evict_all w (p ∷ ps) t u events e = elim (one_pod w p ps t events) [
  | skips daemon same ↦
      failed-evict_all w ps (add_skipped p t) u events (sym (ap (λ r. r.0) same) ∙ e)
  | evicts plain ok same ↦
      failed-evict_all w ps (add_evicted p t) u (after events p) (sym (ap (λ r. r.0) same) ∙ e)
  | fails reason same ↦
      let (more, grown) =
        failed-evict_all w ps (add_failed p reason t) u (after events p)
          (sym (ap (λ r. r.0) same) ∙ e) in
      ((p.name, reason) ∷ more, grown ∙ append_assoc t.failed ((p.name, reason) ∷ []) more)
  | stops x same ↦ absurd (cc (sym (ap (λ r. r.0) same) ∙ e))
]

snoc-ne-nil : {A : Type 0} → (xs ys : List A) (x : A) → (xs ++ x ∷ []) ++ ys ≢ []
snoc-ne-nil [] ys x e = cc e
snoc-ne-nil (z ∷ xs) ys x e = cc e

-- A loop that ends without failures has evicted every pod that no DaemonSet owns.
pub evict_all-AllEvicted :
    (w : World) (ps : List Pod) (t u : Tally) (events : List Event)
    → (evict_all w ps t events).0 ≡ inl u
    → u.failed ≡ []
    → AllEvicted w events (movable ps)
      × ((evict_all w ps t events).1 ≡ events ++ evictions (movable ps))
unfolding AllEvicted
evict_all-AllEvicted w [] t u events e clean = (tt, unfold evict_all in sym (append-nil events))
evict_all-AllEvicted w (p ∷ ps) t u events e clean = elim (one_pod w p ps t events) [
  | skips daemon same ↦
      let r =
        evict_all-AllEvicted w ps (add_skipped p t) u events (sym (ap (λ r. r.0) same) ∙ e) clean in
      rw (daemon, movable) (r.0, ap (λ r. r.1) same ∙ r.1)
  | evicts plain ok same ↦
      let r =
        evict_all-AllEvicted w ps (add_evicted p t) u (after events p)
          (sym (ap (λ r. r.0) same) ∙ e) clean in
      rw (plain, movable)
        (
          (ok, r.0),
          ap (λ r. r.1) same
              ∙ r.1
              ∙ append_assoc events (called (eviction p) ∷ []) (evictions (movable ps)),
        )
  | fails reason same ↦
      let (more, grown) =
        failed-evict_all w ps (add_failed p reason t) u (after events p)
          (sym (ap (λ r. r.0) same) ∙ e) in
      absurd (snoc-ne-nil t.failed more (p.name, reason) (sym grown ∙ clean))
  | stops x same ↦ absurd (cc (sym (ap (λ r. r.0) same) ∙ e))
]

-- ===== src/Executor/Kube/Secrets.antt =====
-- The temporary files that a Kubernetes configuration is read from.
pub mod Token
use auto_heal.Prelude.{
  List, Option, String, [], ap, contains, false, none, refl, some, ◌++◌, ◌∙◌, ◌∷◌, ◌≡◌,
}
use auto_heal.Value.{str}
use auto_heal.Vault.Reference.{Resolved, from_vault, no_secret, plain}
use auto_heal.Executor.Outside.{Event, KubeCall, World, called, ran, removed, wrote}
use auto_heal.Executor.Remote.{materialize, unlink}
use auto_heal.Executor.Remote.Secrets.{
  IsRemovable, files_after, files_after-append, leftover, leftover-unlink_wrote, unlink-removed,
  without, without-cons,
}
use auto_heal.Executor.Kube.Configuration.{
  Credentials, from_kubeconfig, give_up, load_result, no_credentials, no_vault, path_or_none,
  remove_all, usable,
}

unfoldable pub without_all : List String → List String → List String
without_all [] files = files
without_all (p ∷ ps) files = without_all ps (without p files)

leftover-snoc :
    (events : List Event) (e : Event)
    → leftover (events ++ e ∷ []) ≡ files_after (leftover events) (e ∷ [])
leftover-snoc events e = files_after-append [] events (e ∷ [])

pub leftover-called :
    (events : List Event) (k : KubeCall) → leftover (events ++ called k ∷ []) ≡ leftover events
unfolding files_after
leftover-called events k = leftover-snoc events (called k)

pub leftover-ran :
    (events : List Event) (cmd : List String) → leftover (events ++ ran cmd ∷ []) ≡ leftover events
unfolding files_after
leftover-ran events cmd = leftover-snoc events (ran cmd)

pub leftover-remove_all :
    (w : World) (can : IsRemovable w) (ps : List String) (events : List Event)
    → leftover (remove_all w ps events) ≡ without_all ps (leftover events)
unfolding remove_all without_all
leftover-remove_all w can [] events = refl
leftover-remove_all w can (p ∷ ps) events =
    leftover-remove_all w can ps (unlink w p events)
    ∙ ap (without_all ps) (
        ap leftover (unlink-removed w can p events)
        ∙ leftover-snoc events (removed p)
        ∙ unfold files_after in refl)

-- The name that `mkstemp` chooses is new.
abbrev pub IsFresh : World → List Event → Type 0
IsFresh w events = contains (w.temp_path events) (leftover events) ≡ false

-- So is the next one, once a file was made.
abbrev pub IsNextFresh : World → List Event → Type 0
IsNextFresh w events = (t : String) → IsFresh w (events ++ wrote (w.temp_path events) t ∷ [])

-- What removing the files of a configuration leaves, or what there is where it has none
abbrev pub leaves : Credentials × List Event → List String
leaves (usable paths, events) = without_all paths (leftover events)
leaves (no_vault e, events) = leftover events
leaves (no_credentials e, events) = leftover events

pub leaves-give_up :
    (w : World) (can : IsRemovable w) (paths : List String) (e : String) (events : List Event)
    → (leaves (give_up w paths (no_credentials e) events) ≡ without_all paths (leftover events))
      × (leaves (give_up w paths (no_vault e) events) ≡ without_all paths (leftover events))
leaves-give_up w can paths e events =
    (leftover-remove_all w can paths events, leftover-remove_all w can paths events)

pub leaves-load_result :
    (w : World) (can : IsRemovable w) (paths : List String) (o : Option String)
    (events : List Event)
    → leaves (load_result w paths o events) ≡ without_all paths (leftover events)
leaves-load_result w can paths none events = refl
leaves-load_result w can paths (some e) events = (leaves-give_up w can paths e events).0

pub leftover-wrote :
    (events : List Event) (p t : String) → leftover (events ++ wrote p t ∷ []) ≡ p ∷ leftover events
unfolding files_after
leftover-wrote events p t = leftover-snoc events (wrote p t)

-- A file that was just made and is removed
pub without_all-wrote :
    (events : List Event) (p t : String)
    → contains p (leftover events) ≡ false
    → without_all (p ∷ []) (leftover (events ++ wrote p t ∷ [])) ≡ leftover events
unfolding without_all
without_all-wrote events p t fresh =
    ap (without p) (leftover-wrote events p t) ∙ without-cons p (leftover events) fresh

-- A file that could not be written
pub leftover-write_error :
    (w : World) (can : IsRemovable w) (events : List Event) (p : String)
    → contains p (leftover events) ≡ false
    → leftover (unlink w p (events ++ wrote p "" ∷ [])) ≡ leftover events
leftover-write_error w can events p fresh = leftover-unlink_wrote w can events p "" fresh

pub from_kubeconfig-leaves :
    (w : World) (can : IsRemovable w) (r : Resolved) (events : List Event)
    → IsFresh w events
    → leaves (from_kubeconfig w (materialize w r events)) ≡ leftover events
from_kubeconfig-leaves w can (plain value) events fresh =
    leaves-load_result w can [] (w.load_kube_config events (path_or_none value)) events
    ∙ unfold without_all in refl
from_kubeconfig-leaves w can (no_secret e) events fresh =
    (leaves-give_up w can [] e events).1 ∙ unfold without_all in refl
from_kubeconfig-leaves w can (from_vault (str s)) events fresh =
    let p = w.temp_path events in
    let now = events ++ wrote p s ∷ [] in
    leaves-load_result w can (p ∷ []) (w.load_kube_config now (path_or_none (some p))) now
    ∙ without_all-wrote events p s fresh
from_kubeconfig-leaves w can (from_vault _) events fresh =
    leftover-remove_all w can [] _
    ∙ unfold without_all in leftover-write_error w can events (w.temp_path events) fresh

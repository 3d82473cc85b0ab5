-- ===== src/Executor/Kube/Secrets/Token.antt =====
-- The temporary files of a token and its certificate, and of any configuration.

use auto_heal.Prelude.{
  Bool-cases, List, Option-cases, String, [], ap, arith, contains, false, inl, inr, refl, some, sym,
  ◌&&◌, ◌++◌, ◌∙◌, ◌∷◌, ◌≡◌,
}
use auto_heal.Value.{Fields, flag_at, str, text_at}
use auto_heal.Vault.Reference.{Resolved, from_vault, no_secret, plain, resolve_vault_ref}
use auto_heal.Executor.Outside.{Event, FileText, World, os_error, text, wrote}
use auto_heal.Executor.Remote.{filled_text, materialize, resolve_secret_file}
use auto_heal.Executor.Remote.Secrets.{IsRemovable, leftover, without, without-cons}
use auto_heal.Executor.Kube.Configuration.{
  after_token, build_kube_configuration, from_token, has_text, path_or_none, with_ca,
}
use auto_heal.Executor.Kube.Secrets.{
  IsFresh, IsNextFresh, from_kubeconfig-leaves, leaves, leaves-give_up, leaves-load_result,
  leftover-remove_all, leftover-write_error, leftover-wrote, without_all, without_all-wrote,
}

-- Two files that were made one after the other and are removed
without-two :
    (p q : String) (files : List String)
    → contains p files ≡ false
    → contains q (p ∷ files) ≡ false
    → without q (without p (q ∷ p ∷ files)) ≡ files
without-two p q files p_fresh q_fresh =
    let moved : without p (q ∷ p ∷ files) ≡ q ∷ without p (p ∷ files) =
      unfold without in ground (arith) in
    ap (without q) (moved ∙ ap (λ x. q ∷ x) (without-cons p files p_fresh))
    ∙ without-cons q files (unfold without in ground (arith))

-- What the certificate adds, where the token is in no temporary file
with_ca-leaves :
    (w : World) (can : IsRemovable w) (r : Resolved) (events : List Event)
    → IsFresh w events
    → leaves (with_ca w [] (materialize w r events)) ≡ leftover events
unfolding without_all
with_ca-leaves w can (plain value) events fresh = refl
with_ca-leaves w can (no_secret e) events fresh = (leaves-give_up w can [] e events).1
with_ca-leaves w can (from_vault (str s)) events fresh =
    without_all-wrote events (w.temp_path events) s fresh
with_ca-leaves w can (from_vault _) events fresh =
    leftover-remove_all w can [] _ ∙ leftover-write_error w can events (w.temp_path events) fresh

-- The same, where the token is in the temporary file that was made just before
with_ca_after-leaves :
    (w : World) (can : IsRemovable w) (r : Resolved) (events : List Event) (s : String)
    → IsFresh w events
    → IsNextFresh w events
    → leaves (
        with_ca w
          (w.temp_path events ∷ [])
          (materialize w r (events ++ wrote (w.temp_path events) s ∷ [])))
      ≡ leftover events
unfolding without_all
with_ca_after-leaves w can (plain value) events s fresh next =
    without_all-wrote events (w.temp_path events) s fresh
with_ca_after-leaves w can (no_secret e) events s fresh next =
    (leaves-give_up w can (w.temp_path events ∷ []) e _).1
    ∙ without_all-wrote events (w.temp_path events) s fresh
with_ca_after-leaves w can (from_vault (str v)) events s fresh next =
    let p = w.temp_path events in
    let now = events ++ wrote p s ∷ [] in
    let q = w.temp_path now in
    let q_fresh : contains q (p ∷ leftover events) ≡ false =
      ap (contains q) (sym (leftover-wrote events p s)) ∙ next s in
    ap (λ x. without q (without p x))
      (leftover-wrote now q v ∙ ap (λ x. q ∷ x) (leftover-wrote events p s))
    ∙ without-two p q (leftover events) fresh q_fresh
with_ca_after-leaves w can (from_vault _) events s fresh next =
    let p = w.temp_path events in
    let now = events ++ wrote p s ∷ [] in
    leftover-remove_all w can (p ∷ []) _
    ∙ ap (without p) (leftover-write_error w can now (w.temp_path now) (next s))
    ∙ without_all-wrote events p s fresh

after_token-leaves :
    (w : World) (can : IsRemovable w) (controller : Fields) (paths : List String) (t : FileText)
    (events : List Event) (files : List String)
    → without_all paths (leftover events) ≡ files
    → ((r : Resolved) → leaves (with_ca w paths (materialize w r events)) ≡ files)
    → leaves (after_token w controller paths t events) ≡ files
unfolding resolve_secret_file
after_token-leaves w can controller paths (os_error e) events files h ca =
    (leaves-give_up w can paths e events).0 ∙ h
after_token-leaves w can controller paths (text token) events files h ca =
    elim (Option-cases (filled_text (text_at "ca_cert" controller))) [
      | inl absent ↦ rw (absent, after_token) h
      | inr (path, given) ↦
          rw (given, after_token)
            (ca (resolve_vault_ref (w.get_secret events) (some path) (some "ca_cert")))
    ]

from_token-leaves :
    (w : World) (can : IsRemovable w) (controller : Fields) (r : Resolved) (events : List Event)
    → IsFresh w events
    → IsNextFresh w events
    → leaves (from_token w controller (materialize w r events)) ≡ leftover events
unfolding without_all
from_token-leaves w can controller (plain value) events fresh next =
    after_token-leaves w can controller [] (w.read_token events (path_or_none value)) events
      (leftover events) refl (λ r. with_ca-leaves w can r events fresh)
from_token-leaves w can controller (no_secret e) events fresh next =
    (leaves-give_up w can [] e events).1
from_token-leaves w can controller (from_vault (str s)) events fresh next =
    let p = w.temp_path events in
    let now = events ++ wrote p s ∷ [] in
    after_token-leaves w can controller (p ∷ []) (w.read_token now (path_or_none (some p))) now
      (leftover events) (without_all-wrote events p s fresh)
      (λ r. with_ca_after-leaves w can r events s fresh next)
from_token-leaves w can controller (from_vault _) events fresh next =
    leftover-remove_all w can [] _ ∙ leftover-write_error w can events (w.temp_path events) fresh

-- A configuration's files are the only new ones, and removing them leaves the files of before.
pub build_kube_configuration-leaves :
    (w : World) (can : IsRemovable w) (controller : Fields) (events : List Event)
    → IsFresh w events
    → IsNextFresh w events
    → leaves (build_kube_configuration w controller events) ≡ leftover events
unfolding build_kube_configuration resolve_secret_file without_all
build_kube_configuration-leaves w can controller events fresh next =
    elim (Bool-cases (flag_at "in_cluster" controller)) [
      | inl inside ↦
          rw (inside, build_kube_configuration)
            (leaves-load_result w can [] (w.load_incluster events) events)
      | inr outside ↦
          rw (outside, build_kube_configuration)
            (elim (Bool-cases (has_text "kubeconfig" controller)) [
              | inl given ↦
                  rw (given, build_kube_configuration)
                    (from_kubeconfig-leaves w can
                      (resolve_vault_ref (w.get_secret events) (text_at "kubeconfig" controller)
                        (some "kubeconfig"))
                      events fresh)
              | inr absent ↦
                  rw (absent, build_kube_configuration)
                    (elim (Bool-cases
                      (has_text "api_server" controller && has_text "token" controller)) [
                        | inl both ↦
                            rw (both, build_kube_configuration)
                              (from_token-leaves w can controller
                                (resolve_vault_ref (w.get_secret events)
                                  (text_at "token" controller) (some "token"))
                                events fresh next)
                        | inr bare ↦ rw (bare, build_kube_configuration) refl
                      ])
            ])
    ]

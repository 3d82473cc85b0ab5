-- ===== src/Executor/Tests.antt =====
-- The executor at concrete actions, over an outside that always succeeds.

use auto_heal.Prelude.{String-discrete, [], false, none, pos, refl, some, true, ◌∷◌, ◌≡◌}
use auto_heal.Dict.{lookup}
use auto_heal.Value.{Fields, Value, end, field, get, put, str}
use auto_heal.Vault.Reference.{partition_hash, resolve_ref, resolve_vault_ref, secret, strip_prefix}
use auto_heal.Executor.Outside.{
  World, called, completed, done, patch_node, ran, removed, text, wrote,
}
use auto_heal.Executor.Format.{Formatted, format, malformed, missing}
use auto_heal.Executor.Format
use auto_heal.Executor.Params.{text_params, text_values}
use auto_heal.Executor.Shell.{all_safe, escape_quotes, join_words, quote, split}
use auto_heal.Executor.Remote.{
  build_remote_command, resolve_secret_file, run_built, run_remote, ssh_command,
}
use auto_heal.Executor.Remote.Quoting.{
  build_remote_command-playbook, build_remote_command-script, words_of,
}
use auto_heal.Executor.Remote.Secrets.{files_after, leftover}
use auto_heal.Executor.Kube.Configuration.{build_kube_configuration, remove_all}
use auto_heal.Executor.Kube.Handlers.{handle}
use auto_heal.Executor.Kube.Verbs.{set_schedulable}
use auto_heal.Executor.Dispatch.Cleanup.{execute_action-leftover}
use auto_heal.Executor.Dispatch.{execute_action}
use auto_heal.Executor.Dispatch.DryRun.{execute_action-dry}

abbrev pub calm : World
calm = record {
  run = λ events cmd. completed (pos 0) "ok" "";
  kube = λ events k. done;
  get_secret = λ events path. secret (field "private_key" (str "KEY") end);
  temp_path = λ events. "/tmp/autoheal-secret-1";
  can_unlink = λ events p. true;
  read_token = λ events path. text "token";
  load_incluster = λ events. none;
  load_kube_config = λ events path. none;
  repr = λ v. "?";
  dumps = λ v. "{}";
  to_int = λ v. none;
  api_text = λ status reason body. reason;
  iso_now = λ events. "2026-01-01T00:00:00Z";
}

abbrev restart : Fields
restart = field "script" (str "scripts/restart.sh") end

abbrev evil : Fields
evil = field "service_name" (str "x'; rm -rf /") end

abbrev jump_host : Fields
jump_host = field "type" (str "oc") (
    field "host" (str "oc.dc2")
      (field "ssh_user" (str "ocadmin") (field "ssh_key" (str "vault:secret/data/key") end)))

quoted_value : quote "x'; rm -rf /" ≡ "'x'\"'\"'; rm -rf /'"
unfolding quote all_safe escape_quotes String-discrete
quoted_value = refl

split_mixed : split "oc get 'a b' \"c d\"\\ e" ≡ some ("oc" ∷ "get" ∷ "a b" ∷ "c d e" ∷ [])
unfolding split
split_mixed = refl

split_unclosed : split "oc 'get" ≡ none
unfolding split
split_unclosed = refl

formatted :
    (Format.format "oc -n {ns} {{x}}" (("ns", "dev") ∷ []) ≡ Formatted.text "oc -n dev {x}")
    × (Format.format "{a} {ns}" (("ns", "dev") ∷ []) ≡ Formatted.missing "'a'")
    × (Format.format "}" [] ≡ Formatted.malformed)
unfolding Format.format lookup String-discrete
formatted = (refl, refl, refl)

build_remote_command-script_example :
    words_of (build_remote_command calm restart evil)
    ≡ some ("scripts/restart.sh" ∷ "x'; rm -rf /" ∷ [])
unfolding get text_values String-discrete
build_remote_command-script_example =
    build_remote_command-script calm restart evil "scripts/restart.sh" refl refl refl

build_remote_command-playbook_example :
    words_of (build_remote_command calm (field "playbook" (str "a b.yml") end) evil)
    ≡ some ("ansible-playbook" ∷ "a b.yml" ∷ "--extra-vars" ∷ "{}" ∷ [])
unfolding get String-discrete
build_remote_command-playbook_example =
    build_remote_command-playbook calm (field "playbook" (str "a b.yml") end) evil "a b.yml" refl
      refl

execute_action-dry_example : (execute_action calm restart jump_host evil true []).1 ≡ []
execute_action-dry_example = execute_action-dry calm jump_host restart evil []

-- The key is written to a temporary file, used, and removed.
remote_run :
    (run_remote calm jump_host restart end false []).1
    ≡ wrote "/tmp/autoheal-secret-1" "KEY"
      ∷ ran (ssh_command "ocadmin" "oc.dc2" (some "/tmp/autoheal-secret-1") "scripts/restart.sh")
      ∷ removed "/tmp/autoheal-secret-1"
      ∷ []
unfolding run_remote run_built resolve_secret_file resolve_vault_ref strip_prefix resolve_ref
    partition_hash build_remote_command quote all_safe join_words text_values get String-discrete
remote_run = refl

-- A cluster's token and certificate, both from Vault
abbrev vault_cluster : Fields
vault_cluster = field "type" (str "kubeapi") (
    field "api_server" (str "https://k8s") (
      field "token" (str "vault:secret/data/k8s#private_key")
        (field "ca_cert" (str "vault:secret/data/k8s#private_key") end)))

abbrev cordon : Fields
cordon = field "kube_action" (str "cordon_node") (field "node_name" (str "{node}") end)

abbrev two_files : World
two_files = record calm {
  temp_path = λ events. elim (leftover events) [ [] ↦ "/tmp/a" | p ∷ ps ↦ "/tmp/b" ];
}

-- Both are written to files, which are gone at the end.
cordons :
    (execute_action two_files cordon vault_cluster (field "node" (str "n1") end) false []).1
    ≡ wrote "/tmp/a" "KEY"
      ∷ wrote "/tmp/b" "KEY"
      ∷ called (patch_node "n1" true)
      ∷ removed "/tmp/a"
      ∷ removed "/tmp/b"
      ∷ []
unfolding execute_action get String-discrete auto_heal.Executor.Kube.run_kube_action
    auto_heal.Executor.Kube.Render.render_kube_action_fields Format.format text_params
    build_kube_configuration resolve_secret_file resolve_vault_ref remove_all handle set_schedulable
    auto_heal.Value.put files_after
cordons = refl

execute_action-leftover_example :
    leftover
      (execute_action two_files cordon vault_cluster (field "node" (str "n1") end) false []).1
    ≡ []
unfolding files_after String-discrete
execute_action-leftover_example =
    execute_action-leftover two_files (λ events p. refl) vault_cluster cordon
      (field "node" (str "n1") end) false [] refl (λ t. refl)

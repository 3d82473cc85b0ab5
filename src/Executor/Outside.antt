-- ===== src/Executor/Outside.antt =====
-- What src/executor.py asks of the outside: processes, temporary files, Vault and the cluster's API.
-- The outside answers each request from everything that happened before it.
use auto_heal.Prelude.{Bool, List, Option, String, ℕ, ℤ}
use auto_heal.Value.{Fields, Value}
use auto_heal.Vault.Reference.{SecretAnswer}

-- The calls of the Kubernetes client.
pub data KubeCall : Type 0 where
  -- the template annotation of a deployment, statefulset or daemonset: resource, name, namespace
  patch_workload : String → String → String → KubeCall
  -- resource, name, namespace, replicas
  patch_scale : String → String → String → ℤ → KubeCall
  delete_pod : String → String → KubeCall
  -- node, `unschedulable`
  patch_node : String → Bool → KubeCall
  list_pods : String → KubeCall
  evict : String → String → KubeCall
  patch_config_map : String → String → Fields → KubeCall

pub data Event : Type 0 where
  -- `subprocess.run`, with its argument list
  ran : List String → Event
  -- a temporary file, with its path and its text, and its removal
  wrote : String → String → Event
  removed : String → Event
  called : KubeCall → Event

-- How `subprocess.run` ends: return code, stdout and stderr, or an exception and its text.
pub data Completed : Type 0 where
  completed : ℤ → String → String → Completed
  timed_out : String → Completed
  failed : String → Completed

pub record Pod : Type 0 where
  pub name : String
  pub namespace : String
  pub owner_kinds : List String

-- An `ApiException` has a status (0 for none), a reason and a body.
pub data KubeAnswer : Type 0 where
  done : KubeAnswer
  pods : List Pod → KubeAnswer
  api_error : ℕ → String → String → KubeAnswer
  client_error : String → KubeAnswer

pub data FileText : Type 0 where
  text : String → FileText
  os_error : String → FileText

pub record World : Type 0 where
  pub run : List Event → List String → Completed
  pub kube : List Event → KubeCall → KubeAnswer
  pub get_secret : List Event → String → SecretAnswer
  -- the name that `mkstemp` chooses
  pub temp_path : List Event → String
  -- whether `os.unlink` of a path succeeds
  pub can_unlink : List Event → String → Bool
  -- the text of a file, stripped, or the text of the `OSError`
  pub read_token : List Event → String → FileText
  -- the client's loaders of credentials: `none`, or the text of the exception
  pub load_incluster : List Event → Option String
  pub load_kube_config : List Event → String → Option String
  -- `str(v)` of a value that is no text, `json.dumps(v)`, and `int(s)` where it does not raise
  pub repr : Value → String
  pub dumps : Value → String
  pub to_int : Value → Option ℤ
  -- `str(e)` of an `ApiException` with this status, reason and body
  pub api_text : ℕ → String → String → String
  -- the current time in ISO form
  pub iso_now : List Event → String

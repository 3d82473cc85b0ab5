-- ===== src/Executor/Kube/Render.antt =====
-- `_render_kube_action_fields` and `_describe_kube_action` of src/executor.py.
use auto_heal.Prelude.{String, if◌then◌else◌, none, some, ◌<>◌, ◌==◌, ◌||◌}
use auto_heal.Dict.{Dict}
use auto_heal.Value.{Fields, dict_of, end, field, get, get_or, null, obj, put, str}
use auto_heal.Executor.Outside.{World}
use auto_heal.Executor.Params.{format_value, same, text_of, text_params}
use auto_heal.Executor.Format.{Formatted, format, malformed, missing}
use auto_heal.Executor.Format

-- The rendered fields, a missing parameter, or a `ValueError`.
pub data Rendered : Type 0 where
  fields : Fields → Rendered
  lacking : String → Rendered
  unreadable : Rendered

abbrev add : String → Formatted → Rendered → Rendered
add key (Formatted.text s) (fields f) = fields (put key (str s) f)
add key (Formatted.missing e) (fields f) = lacking e
add key Formatted.malformed (fields f) = unreadable
add key t r = r

-- `if key in action: rendered[key] = action[key].format(**params)`
abbrev render_text : Fields → Dict String → String → Rendered → Rendered
render_text action params key so_far = elim (get key action) [
  | none ↦ so_far
  | some v ↦ add key (format_value v params) so_far
]

-- `{k: str(v).format(**params) for k, v in action["data"].items()}`
unfoldable pub render_data : World → Dict String → Fields → Rendered
render_data w params end = fields end
render_data w params (field k v rest) = elim (Format.format (text_of w v) params) [
  | Formatted.text s ↦ elim (render_data w params rest) [
    | fields f ↦ fields (field k (str s) f)
    | lacking e ↦ lacking e
    | unreadable ↦ unreadable
  ]
  | Formatted.missing e ↦ lacking e
  | Formatted.malformed ↦ unreadable
]

abbrev add_data : Rendered → Rendered → Rendered
add_data (fields d) (fields f) = fields (put "data" (obj d) f)
add_data r (fields f) = r
add_data d r = r

abbrev copied : Fields → Rendered
copied action = elim (get "resource" action) [
  | none ↦ fields end
  | some v ↦ fields (field "resource" v end)
]

-- `_render_kube_action_fields`: `resource` is copied, the other fields are templates.
unfoldable pub render_kube_action_fields : World → Fields → Fields → Rendered
render_kube_action_fields w action params =
    let p = text_params w same params in
    let texts =
      render_text action p "node_name"
        (render_text action p "namespace" (render_text action p "name" (copied action))) in
    elim (get "data" action) [
      | none ↦ texts
      | some d ↦ add_data (render_data w p (dict_of d)) texts
    ]

-- `rendered.get(key)` in an f-string
abbrev pub shown : World → String → Fields → String
shown w key rendered = text_of w (get_or key null rendered)

-- `_describe_kube_action`
unfoldable pub describe_kube_action : World → String → Fields → String
describe_kube_action w verb rendered =
    if verb == "cordon_node" || verb == "uncordon_node" || verb == "drain_node"
    then verb <> (" node '" <> (shown w "node_name" rendered <> "'"))
    else if verb == "patch_configmap"
    then "patch_configmap '"
      <> (shown w "name" rendered
          <> ("' in namespace '"
              <> (shown w "namespace" rendered <> ("' with " <> shown w "data" rendered))))
    else verb
      <> (" "
          <> (text_of w (get_or "resource" (str "deployment") rendered)
              <> (" '"
                  <> (shown w "name" rendered
                      <> ("' in namespace '" <> (shown w "namespace" rendered <> "'"))))))

-- ===== src/Value.antt =====
-- The values that `json.load`, `yaml.safe_load` and `request.json()` give. Numbers are integers:
-- no number of the program's configuration or state has a fraction except times, which the
-- components keep in milliseconds.
use auto_heal.Prelude.{
  Bool, Option, String, arith, false, if◌then◌else◌, is_nonzero, none, refl, some, true, ℤ, ◌==◌,
  ◌||◌, ◌≡◌,
}

mutual
  pub data Value : Type 0 where
    null : Value
    bool : Bool → Value
    num : ℤ → Value
    str : String → Value
    obj : Fields → Value
    arr : Items → Value

  -- a dict, in insertion order
  pub data Fields : Type 0 where
    end : Fields
    field : String → Value → Fields → Fields

  -- a list
  pub data Items : Type 0 where
    nil : Items
    cons : Value → Items → Items

-- `bool(v)`
abbrev pub truthy : Value → Bool
truthy null = false
truthy (bool b) = b
truthy (num n) = is_nonzero n
truthy (str s) = if s == "" then false else true
truthy (arr nil) = false
truthy (arr (cons v vs)) = true
truthy (obj end) = false
truthy (obj (field k v f)) = true

-- `f.get(k)`, where `none` is a missing key
unfoldable pub get : String → Fields → Option Value
get k end = none
get k (field j v f) = if j == k then some v else get k f

-- `k in f`
abbrev pub has : String → Fields → Bool
has k f = elim (get k f) [ none ↦ false | some v ↦ true ]

-- `f.get(k, d)`
abbrev pub get_or : String → Value → Fields → Value
get_or k d f = elim (get k f) [ none ↦ d | some v ↦ v ]

-- `f[k] = v`
unfoldable pub put : String → Value → Fields → Fields
put k v end = field k v end
put k v (field j w f) = if j == k then field j v f else field j w (put k v f)

-- `f.update(g)`, and the merge `{**f, **g}`
unfoldable pub update : Fields → Fields → Fields
update f end = f
update f (field k v g) = update (put k v f) g

-- A text, or Python's None for a null.
abbrev pub as_text : Value → Option String
as_text (str s) = some s
as_text _ = none

-- A dict; what is no dict reads as the empty one (`v or {}` at a null).
abbrev pub dict_of : Value → Fields
dict_of (obj f) = f
dict_of _ = end

abbrev pub as_int : Value → Option ℤ
as_int (num n) = some n
as_int _ = none

-- The text at a key, `f.get(k)`: None when the key is missing.
abbrev pub text_at : String → Fields → Option String
text_at k f = as_text (get_or k null f)

-- `f.get(k) or {}`, and `f.get(k, {})`
abbrev pub dict_at : String → Fields → Fields
dict_at k f = dict_of (get_or k null f)

-- `bool(f.get(k))`
abbrev pub flag_at : String → Fields → Bool
flag_at k f = truthy (get_or k null f)

-- `bool(f)` of a dict
abbrev pub is_filled : Fields → Bool
is_filled end = false
is_filled (field k v f) = true

-- None for a null, as a value
abbrev pub text_or_null : Option String → Value
text_or_null none = null
text_or_null (some s) = str s

-- `s in items`, for a list of texts
abbrev pub member : String → Items → Bool
member s nil = false
member s (cons (str t) vs) = s == t || member s vs
member s (cons _ vs) = member s vs

pub get-put :
    (k j : String) (v : Value) (f : Fields)
    → get j (put k v f) ≡ (if k == j then some v else get j f)
unfolding get put
get-put k j v end = refl
get-put k j v (field i w f) = ground (arith, get-put k j v f)

-- the last entry of a key in `g` wins over all of `f`
unfoldable pub get_last : String → Fields → Option Value
get_last k end = none
get_last k (field j v f) = elim (get_last k f) [
  | some w ↦ some w
  | none ↦ if j == k then some v else none
]

pub get-update :
    (k : String) (f g : Fields)
    → get k (update f g) ≡ elim (get_last k g) [ some v ↦ some v | none ↦ get k f ]
unfolding update get_last
get-update k f end = refl
get-update k f (field j v g) = ground (arith, get-update k (put j v f) g, get-put j k v f)

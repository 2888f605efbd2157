-- ===== src/Core/Json.antt =====
-- The JSON values of src/dag_doctor (pydantic's JsonValue) and Python's `json.dumps`, on which
-- graph/state.py and graph/nodes/gather_evidence.py rest. A number is kept as the text that
-- `dumps` prints for it. A string is printed for printable ASCII and the short escapes.
use dag_doctor.Base.{
  ℕ, ◌==◌, ltb, String, Text, codes, str_eq, Bool, true, false, Option, none, some, [], ◌∷◌, ◌++◌,
  ◌≡◌, refl, if◌then◌else◌,
}

mutual
  pub data Json : Type 0 where
    null : Json
    bool : Bool → Json
    number : Text → Json
    str : Text → Json
    arr : Items → Json
    obj : Fields → Json

  pub data Items : Type 0 where
    nil : Items
    cons : Json → Items → Items

  pub data Fields : Type 0 where
    end : Fields
    field : String → Json → Fields → Fields

-- `dict.get(key)`; keys are distinct, so the first entry is the only one.
unfoldable pub get : String → Fields → Option Json
get k end = none
get k (field j v rest) = if str_eq j k then some v else get k rest

-- The short escapes of `json.dumps`; every other character stands for itself.
escape : ℕ → Text
escape c =
    if c == b'"'
    then b'\\' ∷ b'"' ∷ []
    else if c == 92
    then 92 ∷ 92 ∷ []
    else if c == 10
    then 92 ∷ b'n' ∷ []
    else if c == 9
    then 92 ∷ b't' ∷ []
    else if c == 13
    then 92 ∷ b'r' ∷ []
    else c ∷ []

escaped : Text → Text
unfolding escape
escaped [] = []
escaped (c ∷ s) = escape c ++ escaped s

quoted : Text → Text
unfolding escaped
quoted s = 34 ∷ (escaped s ++ 34 ∷ [])

abbrev comma : Fields → Text
comma end = []
comma _ = codes ", "

abbrev item_comma : Items → Text
item_comma nil = []
item_comma _ = codes ", "

-- `json.dumps(value)` with the default separators.
unfoldable mutual
  unfolding quoted

  pub dumps : Json → Text
  dumps null = codes "null"
  dumps (bool true) = codes "true"
  dumps (bool false) = codes "false"
  dumps (number t) = t
  dumps (str s) = quoted s
  dumps (arr xs) = codes "[" ++ (dumps_items xs ++ codes "]")
  dumps (obj fs) = codes "{" ++ (dumps_fields fs ++ codes "}")

  pub dumps_items : Items → Text
  dumps_items nil = []
  dumps_items (cons x xs) = dumps x ++ (item_comma xs ++ dumps_items xs)

  pub dumps_fields : Fields → Text
  dumps_fields end = []
  dumps_fields (field k v fs) =
      quoted (codes k) ++ (codes ": " ++ (dumps v ++ (comma fs ++ dumps_fields fs)))

-- The order of Python strings, by code points.
unfoldable pub text_ltb : Text → Text → Bool
text_ltb s [] = false
text_ltb [] (d ∷ t) = true
text_ltb (c ∷ s) (d ∷ t) = if ltb c d then true else if c == d then text_ltb s t else false

unfoldable pub insert_field : String → Json → Fields → Fields
unfolding text_ltb
insert_field k v end = field k v end
insert_field k v (field j w rest) =
    if text_ltb (codes j) (codes k)
    then field j w (insert_field k v rest)
    else field k v (field j w rest)

-- What `sort_keys=True` does to a value before it is printed: the keys of every object, at
-- every depth, in ascending order.
unfoldable mutual
  unfolding insert_field

  pub sort_keys : Json → Json
  sort_keys (arr xs) = arr (sort_items xs)
  sort_keys (obj fs) = obj (sort_fields fs)
  sort_keys other = other

  pub sort_items : Items → Items
  sort_items nil = nil
  sort_items (cons x xs) = cons (sort_keys x) (sort_items xs)

  pub sort_fields : Fields → Fields
  sort_fields end = end
  sort_fields (field k v fs) = insert_field k (sort_keys v) (sort_fields fs)

-- `json.dumps(arguments, sort_keys=True)` (`_fingerprint` of graph/nodes/gather_evidence.py).
unfoldable pub fingerprint : Fields → Text
unfolding dumps sort_keys
fingerprint arguments = dumps (obj (sort_fields arguments))

dumps_test :
    dumps (obj (field "a" (arr (cons null (cons (str (codes "x\"y")) nil))) end))
    ≡ codes "{\"a\": [null, \"x\\\"y\"]}"
unfolding dumps
dumps_test = refl

fingerprint_test :
    fingerprint (field "b" null (field "a" (bool true) end)) ≡ codes "{\"a\": true, \"b\": null}"
unfolding fingerprint
fingerprint_test = refl

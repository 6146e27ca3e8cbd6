-- ===== src/Js/Value.antt =====
-- JavaScript values, as far as the event payloads use them.
use full_project.Prelude.{
  ◌≡◌, refl, Bool, true, false, not, List, [], ◌++◌, String, arith, if◌then◌else◌, is_nil,
}
use text.Mathlib.Text.{◌==◌ as str_eq}
use text.Mathlib.TextEquality.{eq_iff}
use full_project.Js.Text.{Text, codes}
use full_project.Js.Number.{Number, number_truthy, show_number}

-- `dict` is an object whose property names come from the page, with texts as values. The order of
-- the fields is that in which JavaScript lists them.
mutual
  pub data Value : Type 0 where
    undefined null : Value
    bool : Bool → Value
    num : Number → Value
    str : Text → Value
    arr : Items → Value
    obj : Fields → Value
    dict : List (Text × Text) → Value

  pub data Items : Type 0 where
    nil : Items
    cons : Value → Items → Items

  pub data Fields : Type 0 where
    end : Fields
    field : String → Value → Fields → Fields

abbrev pub truthy : Value → Bool
truthy undefined = false
truthy null = false
truthy (bool b) = b
truthy (num x) = number_truthy x
truthy (str s) = not (is_nil s)
truthy _ = true

-- `a || b`
abbrev pub or_value : Value → Value → Value
or_value a b = if truthy a then a else b

abbrev pub is_undefined : Value → Bool
is_undefined undefined = true
is_undefined _ = false

-- `v !== undefined && v !== null && v !== ''`
abbrev pub is_given : Value → Bool
is_given undefined = false
is_given null = false
is_given (str s) = not (is_nil s)
is_given _ = true

unfoldable mutual
  -- `String(v)`
  pub to_text : Value → Text
  to_text undefined = codes "undefined"
  to_text null = codes "null"
  to_text (bool true) = codes "true"
  to_text (bool false) = codes "false"
  to_text (num x) = show_number x
  to_text (str s) = s
  to_text (arr items) = join_items items
  to_text (obj fields) = codes "[object Object]"
  to_text (dict entries) = codes "[object Object]"

  pub join_items : Items → Text
  join_items nil = []
  join_items (cons v nil) = element_text v
  join_items (cons v (cons w items)) = element_text v ++ codes "," ++ join_items (cons w items)

  -- An element of an array: `null` and `undefined` print as nothing.
  pub element_text : Value → Text
  element_text undefined = []
  element_text null = []
  element_text (bool true) = codes "true"
  element_text (bool false) = codes "false"
  element_text (num x) = show_number x
  element_text (str s) = s
  element_text (arr items) = join_items items
  element_text (obj fields) = codes "[object Object]"
  element_text (dict entries) = codes "[object Object]"

unfoldable pub get : String → Fields → Value
get k end = undefined
get k (field j v r) = if str_eq j k then v else get k r

unfoldable pub put : String → Value → Fields → Fields
put k v end = field k v end
put k v (field j w r) = if str_eq j k then field j v r else field j w (put k v r)

-- `delete o.k`
unfoldable pub remove : String → Fields → Fields
remove k end = end
remove k (field j w r) = let rest = remove k r in if str_eq j k then rest else field j w rest

pub get-put :
    (k j : String) (v : Value) (r : Fields)
    → get j (put k v r) ≡ (if str_eq k j then v else get j r)
unfolding get put
get-put k j v end = refl
get-put k j v (field i w r) = ground (arith, eq_iff k j, eq_iff i k, eq_iff i j, get-put k j v r)

pub get-remove :
    (k j : String) (r : Fields) → get j (remove k r) ≡ (if str_eq k j then undefined else get j r)
unfolding get remove
get-remove k j end = ground arith
get-remove k j (field i w r) = ground (arith, eq_iff k j, eq_iff i k, eq_iff i j, get-remove k j r)

-- ===== src/Base/Json.antt =====
-- A value of JSON, as a dict of the program holds it: numbers that are not whole are left out.
use mathlib.Core.Bool.{Bool, true, false, ◌&&◌}
use mathlib.Core.Option.{Option, none, some}
use mathlib.Core.List.{List, [], ◌∷◌}
use news_collect.Base.Tests.{if◌then◌else◌, ◌==◌}
use news_collect.Base.Lists.{length}
use news_collect.Base.Int.{ℤ, pos, negsuc}
use news_collect.Base.Order.{Text, text_eq}

mutual
  pub data Json : Type 0 where
    null : Json
    boolean : Bool → Json
    integer : ℤ → Json
    string : Text → Json
    array : Items → Json
    object : Fields → Json

  pub data Items : Type 0 where
    no_items : Items
    next_item : Json → Items → Items

  pub data Fields : Type 0 where
    no_fields : Fields
    next_field : Text → Json → Fields → Fields

-- `config.get(key)`
unfoldable pub get : Text → Fields → Option Json
get key no_fields = none
get key (next_field name value rest) =
    let found = get key rest in if text_eq name key then some value else found

-- The items whose key passes a test.
unfoldable pub keep_fields : (Text → Bool) → Fields → Fields
keep_fields p no_fields = no_fields
keep_fields p (next_field name value rest) =
    let kept = keep_fields p rest in if p name then next_field name value kept else kept

-- `set(fields)`
unfoldable pub names : Fields → List Text
names no_fields = []
names (next_field name value rest) = name ∷ names rest

-- A number as Python compares it: `True == 1`.
unfoldable pub number : Json → Option ℤ
number (integer n) = some n
number (boolean true) = some (pos 1)
number (boolean false) = some (pos 0)
number _ = none

unfoldable pub same_number : Option ℤ → Option ℤ → Bool
same_number (some (pos m)) (some (pos n)) = m == n
same_number (some (negsuc m)) (some (negsuc n)) = m == n
same_number _ _ = false

-- `value == other`
unfoldable mutual
  pub json_eq : Json → Json → Bool
  json_eq null null = true
  json_eq (string s) (string t) = text_eq s t
  json_eq (array xs) (array ys) = items_eq xs ys
  json_eq (object fs) (object gs) = length (names fs) == length (names gs) && fields_in fs gs
  json_eq (integer n) other = same_number (some n) (number other)
  json_eq (boolean b) other = same_number (number (boolean b)) (number other)
  json_eq _ _ = false

  pub items_eq : Items → Items → Bool
  items_eq no_items no_items = true
  items_eq (next_item x xs) (next_item y ys) = json_eq x y && items_eq xs ys
  items_eq _ _ = false

  pub fields_in : Fields → Fields → Bool
  fields_in no_fields gs = true
  fields_in (next_field name value rest) gs =
      elim (get name gs) [ some other ↦ json_eq value other | none ↦ false ] && fields_in rest gs

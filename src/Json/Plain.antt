-- ===== src/Json/Plain.antt =====
-- A concrete JSON type, at which the theorems about JSON are tried out.
use openclaw_rust_node.Base.{
  String, Bool, Option, none, some, List, [], ◌∷◌, ℕ, if◌then◌else◌, str_eq,
}
use openclaw_rust_node.Json.{Json}

mutual
  pub data Plain : Type 0 where
    null : Plain
    text : String → Plain
    flag : Bool → Plain
    number : ℕ → Plain
    arr : Items → Plain
    obj : Fields → Plain

  pub data Items : Type 0 where
    nil : Items
    cons : Plain → Items → Items

  pub data Fields : Type 0 where
    end : Fields
    field : String → Plain → Fields → Fields

abbrev to_list : Items → List Plain
to_list nil = []
to_list (cons v r) = v ∷ to_list r

abbrev find : Fields → String → Option Plain
find end k = none
find (field j v r) k = if str_eq j k then some v else find r k

abbrev pub plain_json : Json
plain_json = record {
  Value = Plain;
  Object = Fields;
  get = λ v k. elim v [ obj f ↦ find f k | _ ↦ none ];
  object_get = find;
  as_str = λ v. elim v [ text s ↦ some s | _ ↦ none ];
  as_bool = λ v. elim v [ flag b ↦ some b | _ ↦ none ];
  as_u64 = λ v. elim v [ number n ↦ some n | _ ↦ none ];
  as_array = λ v. elim v [ arr l ↦ some (to_list l) | _ ↦ none ];
  as_object = λ v. elim v [ obj f ↦ some f | _ ↦ none ];
}

-- ===== src/Editable/Fields.antt =====
-- The fields that a save sends, by name.
use Prim.Native.String.{String}
use nswall.Common.{
  ◌≡◌, refl, ap, ◌∙◌, true, Option, none, some, List, [], ◌∷◌, arith, if◌then◌else◌, Bool-cases,
  inl, inr, ◌&&◌,
}
use nswall.Common.Texts.{Text, is_text, is_text→≡}
use nswall.Editable.State.{Editable}
use nswall.Editable.Settings.{Settings}
use nswall.Editable.Begin.{put_property, extend}
use nswall.Editable.Finish.{fields_of}

-- The property of a name.
abbrev pub property : String → List (String × Text) → Option Text
property n [] = none
property n ((k, v) ∷ ps) = if is_text n k then some v else property n ps

-- The last property of a name.
abbrev pub last_property : String → List (String × Text) → Option Text
last_property n [] = none
last_property n ((k, v) ∷ ps) = elim (last_property n ps) [
  | none ↦ if is_text n k then some v else none
  | some w ↦ some w
]

abbrev pub or_else : Option Text → Option Text → Option Text
or_else (some x) y = some x
or_else none y = y

property-put_property :
    (n k : String) (v : Text) (ps : List (String × Text))
    → property n (put_property k v ps) ≡ (if is_text n k then some v else property n ps)
unfolding put_property
property-put_property n k v [] = refl
property-put_property n k v ((j, w) ∷ ps) = elim (Bool-cases (is_text k j)) [
  | inl h ↦ elim (Bool-cases (is_text n k)) [
    | inl g ↦ ground (arith, h, g, same j g)
    | inr g ↦ ground (arith, h, g, ap (is_text n) (is_text→≡ {s = k} {t = j} h))
  ]
  | inr h ↦ elim (Bool-cases (is_text n k)) [
    | inl g ↦ ground (arith, h, g, same j g, property-put_property n k v ps)
    | inr g ↦ ground (arith, h, g, property-put_property n k v ps)
  ]
]
  where
    same : (i : String) → is_text n k ≡ true → is_text n i ≡ is_text k i
    same i g = ap (λ x. is_text x i) (is_text→≡ g)

property-extend :
    (n : String) (ps qs : List (String × Text))
    → property n (extend ps qs) ≡ or_else (last_property n qs) (property n ps)
unfolding extend
property-extend n ps [] = refl
property-extend n ps ((k, v) ∷ qs) =
    property-extend n (put_property k v ps) qs ∙ ground (arith, property-put_property n k v ps)

-- What a save sends under a name: 'put' for a PUT under '_method', else the last of the extra data of
-- that name, else the id of the element or the value.
abbrev pub sent_as : Settings → Text → Editable → String → Option Text
sent_as s value e n =
    if s.put_method && is_text n "_method"
    then some (b'p' ∷ b'u' ∷ b't' ∷ [])
    else or_else (last_property n (s.submit_data e.revert)) (
        if is_text n s.id then some e.element_id else if is_text n s.name then some value else none)

-- The fields of a save hold, under each name: for a PUT 'put' under '_method'; else the last of the
-- extra data of that name; else the id of the element if it is the name for the id; else the value
-- if it is the name of the value; and nothing under other names.
pub property-fields_of :
    (s : Settings) (value : Text) (e : Editable) (n : String)
    → property n (fields_of s value e) ≡ sent_as s value e n
unfolding fields_of
property-fields_of s value e n =
    let ps = put_property s.id e.element_id ((s.name, value) ∷ []) in
    let h = property-extend n ps (s.submit_data e.revert) in
    let k = property-put_property n s.id e.element_id ((s.name, value) ∷ []) in
    let l =
      property-put_property n "_method" (b'p' ∷ b'u' ∷ b't' ∷ [])
        (extend ps (s.submit_data e.revert)) in
    ground (arith, h, k, l)

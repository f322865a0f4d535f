-- ===== src/Builder/Json/Returns.antt =====
-- `updateJSON` throws nothing where every property has its validation.
use de_pipeline_tool.Prelude.{
  String, true, List, [], ◌∷◌, ◌≡◌, refl, arith, All, is_some, inl, inr, Option-cases, is_done,
  is_done-eq-done,
}
use de_pipeline_tool.Builder.Model.{Property, Operator, Scope}
use de_pipeline_tool.Builder.Json.{
  Writing, Written, write_property, write_properties, write_operators, finish_json, update_json,
}

write_property-is_some :
    (operator : String) (p : Property) (w : Writing)
    → is_some p.validation ≡ true
    → is_some (write_property operator p w) ≡ true
unfolding write_property
write_property-is_some operator p w h = ground arith

write_properties-is_some :
    (operator : String) (ps : List Property) (w : Writing)
    → All (λ p. is_some p.validation ≡ true) ps
    → is_some (write_properties operator ps w) ≡ true
unfolding write_properties
write_properties-is_some operator [] w h = refl
write_properties-is_some operator (p ∷ ps) w (q, h) =
    elim (Option-cases (write_property operator p w)) [
      | inl e ↦ ground (arith, write_property-is_some operator p w q)
      | inr (w', e) ↦ rw (e, write_properties) (write_properties-is_some operator ps w' h)
    ]

write_operators-is_done :
    (os : List Operator) (w : Written)
    → All (λ o. All (λ p. is_some p.validation ≡ true) o.properties) os
    → is_done (write_operators os w) ≡ true
unfolding write_operators
write_operators-is_done [] w h = refl
write_operators-is_done (o ∷ os) w (q, h) =
    elim (Option-cases
      (write_properties o.name o.properties (record { settings = []; files = w.files }))) [
        | inl e ↦ ground (
          arith,
          write_properties-is_some o.name o.properties (record { settings = []; files = w.files })
              q,
        )
        | inr (w', e) ↦ rw (e, write_operators) (write_operators-is_done os _ h)
      ]

pub update_json-is_done :
    (s : Scope)
    → All (λ o. All (λ p. is_some p.validation ≡ true) o.properties) s.state_objects
    → is_done (update_json s) ≡ true
unfolding update_json finish_json
update_json-is_done s h =
    let (w, e) =
      is_done-eq-done _
        (write_operators-is_done s.state_objects (record { operators = []; files = [] }) h) in
    rw e refl

-- ===== src/Ribbon.antt =====
-- The ribbon of operators, de-ui-system-tools/app/system-builder/operator-ribbon.directive.js: the
-- colours of the categories, and the order of the operators.
pub mod Order
mod Tests
use de_pipeline_tool.Prelude.{
  ℕ, zero, suc, eqb, ◌+◌, ◌≤◌, String, Bool, true, false, ◌||◌, List, [], ◌∷◌, ◌++◌, Option, none,
  some, ◌==◌, if◌then◌else◌, leb, get_elem?, is_some,
}
use de_pipeline_tool.Builder.Model.{
  OperatorType, input, output, parser, enrichment, mapping, binary_input, binary_output, other,
}

-- An operator; `ref` is the identity of the object, which several categories share.
pub record Entry : Type 0 where
  pub ref : ℕ
  pub name : String
  pub type : OperatorType
  pub color : Option String

-- A category; `color`, `icon` and `index` are set together.
pub record Category : Type 0 where
  pub name : String
  pub operators : List Entry
  pub color : Option String
  pub icon : Option String
  pub index : Option ℕ

abbrev pub type_colors : List String
type_colors =
    "#ffffff" ∷ "#bb0773" ∷ "#9b2743" ∷ "#774135" ∷ "#8c7732" ∷ "#046a38" ∷ "#00778b" ∷ "#80479b"
    ∷ "#ffffff" ∷ []

-- `aLeast` and `bLeast` of `sortOps`.
unfoldable pub least : OperatorType → ℕ
least input = 0
least binary_input = 1
least parser = 2
least mapping = 3
least enrichment = 4
least output = 5
least binary_output = 6
least (other t) = 99

-- `sortOps(a, b) <= 0`
unfoldable pub sort_ops : Entry → Entry → Bool
sort_ops a b = leb (least a.type) (least b.type)

abbrev has_ref : ℕ → List Entry → Bool
has_ref ref [] = false
has_ref ref (e ∷ es) = eqb e.ref ref || has_ref ref es

-- The operators `painted` take a color, which shows wherever the objects stand.
unfoldable pub paint : Option String → List Entry → List Entry → List Entry
paint c painted [] = []
paint c painted (e ∷ es) =
    (if has_ref e.ref painted then record e { color = c } else e) ∷ paint c painted es

unfoldable pub paint_all : Option String → List Entry → List Category → List Category
paint_all c painted [] = []
paint_all c painted (d ∷ ds) =
    record d { operators = paint c painted d.operators } ∷ paint_all c painted ds

-- The category at an index takes the color of the index.
unfoldable pub mark : ℕ → ℕ → List Category → List Category
mark i n [] = []
mark i zero (d ∷ ds) =
    record d { color = get_elem? type_colors i; icon = some "fa-circle"; index = some i } ∷ ds
mark i (suc n) (d ∷ ds) = d ∷ mark i n ds

-- The loop over the categories, where `cs` are left from index `i`, and `all` is the whole list.
unfoldable pub color_from : ℕ → List Category → List Category → List Category
color_from i [] all = all
color_from i (c ∷ cs) all = color_from (suc i) cs (
    if c.name == "All" || c.name == "Stored Operators"
    then all
    else paint_all (get_elem? type_colors i) c.operators (mark i i all))

-- `sort` is the browser's, for a comparator that says where its result is not above zero.
module _ (sort : (Entry → Entry → Bool) → List Entry → List Entry) where
  unfoldable pub sort_first : List Category → List Category
  sort_first [] = []
  sort_first (c ∷ cs) = record c { operators = sort sort_ops c.operators } ∷ cs

  -- `refreshOperators` on a list that is not empty.
  unfoldable pub refresh_operators : List Category → List Category
  refresh_operators cs = sort_first (color_from 0 cs cs)

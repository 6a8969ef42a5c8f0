-- ===== src/Examples/Expanding.antt =====
-- Groups within groups, one of them in a circle.
use py2fw.Common.{String, List, [], ◌∷◌, Dict}
use py2fw.Analyzers.UnusedObjects.{expand}
use py2fw.Analyzers.UnusedObjects.Closure.{IsClosure, expand-IsClosure}

abbrev nested_groups : Dict String (List String)
nested_groups = ("all", "inside" ∷ "dmz" ∷ []) ∷ ("inside", "corp" ∷ "all" ∷ []) ∷ []

expand-IsClosure_example :
    IsClosure nested_groups ("any" ∷ "all" ∷ []) (expand ("any" ∷ "all" ∷ []) nested_groups)
expand-IsClosure_example = expand-IsClosure ("any" ∷ "all" ∷ []) nested_groups

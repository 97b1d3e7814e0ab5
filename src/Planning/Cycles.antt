-- ===== src/Planning/Cycles.antt =====
-- server/src/agentic/planning/validator.py, _validate_dependency_graph and _visit_dependency: the
-- depth-first search that refuses a plan whose dependencies form a cycle. The two sets that the
-- source mutates are passed on as a state; the recursion takes fuel.
pub mod Sound
pub mod Complete
pub mod Decides
use juris_ai.Base.{
  ℕ, zero, suc, String, Bool, true, false, Option, none, some, List, [], ◌∷◌, length, elem, without,
  if◌then◌else◌,
}
use juris_ai.Base.Dict.{Dict, get, keys}

pub record Colours : Type 0 where
  pub visiting : List String
  pub visited : List String

-- What a visit ends in: the sets as it leaves them, `PlanValidationError` for a cycle, `KeyError`
-- of a lookup or a `set.remove`, or the end of the fuel.
pub data Visit : Type 0 where
  done : Colours → Visit
  cycle key_error out_of_fuel : Visit

infixl 5 ◌>>=◌
abbrev pub ◌>>=◌ : Visit → (Colours → Visit) → Visit
done c >>= f = f c
cycle >>= f = cycle
key_error >>= f = key_error
out_of_fuel >>= f = out_of_fuel

-- for dependency_id in dependencies[step_id]: ...
pub visit_all : (String → Colours → Visit) → List String → Colours → Visit
visit_all visit [] c = done c
visit_all visit (x ∷ xs) c = visit x c >>= visit_all visit xs

-- visiting.remove(step_id); visited.add(step_id)
pub leave : String → Colours → Visit
leave a c =
    if elem a c.visiting
    then done (record { visiting = without a c.visiting; visited = a ∷ c.visited })
    else key_error

abbrev enter : String → Colours → Colours
enter a c = record c { visiting = a ∷ c.visiting }

-- The loop over the entry of the dict, and what follows it; `none` is the `KeyError` of the lookup.
pub explore : (String → Colours → Visit) → Option (List String) → String → Colours → Visit
unfolding leave
explore visit none a c = key_error
explore visit (some needs) a c = visit_all visit needs (enter a c) >>= leave a

pub visit_dependency : ℕ → Dict (List String) → String → Colours → Visit
unfolding explore
visit_dependency zero d a c = out_of_fuel
visit_dependency (suc fuel) d a c =
    if elem a c.visited
    then done c
    else if elem a c.visiting
    then cycle
    else explore (visit_dependency fuel d) (get a d) a c

abbrev pub no_colours : Colours
no_colours = record { visiting = []; visited = [] }

-- Each level of the recursion has one more key under visit, so the fuel is the number of keys.
unfoldable pub validate_dependency_graph : Dict (List String) → Visit
unfolding visit_dependency visit_all
validate_dependency_graph d =
    visit_all (visit_dependency (suc (length (keys d))) d) (keys d) no_colours

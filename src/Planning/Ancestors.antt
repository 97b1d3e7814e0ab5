-- ===== src/Planning/Ancestors.antt =====
-- server/src/agentic/planning/validator.py, _transitive_dependencies: every step that a step
-- depends on, by a loop over a stack. The top of the stack is the head of the list.
pub mod Reach
use juris_ai.Base.{
  ℕ, zero, suc, ◌+◌, String, Option, none, some, List, [], ◌∷◌, length, elem, if◌then◌else◌,
}
use juris_ai.Base.Dict.{Dict, get}

-- depends_on.get(dependency_id, ())
pub needs_of : Option (List String) → List String
needs_of none = []
needs_of (some needs) = needs

-- stack.extend(needs): the last of them is popped first
pub extend : List String → List String → List String
extend [] stack = stack
extend (x ∷ xs) stack = extend xs (x ∷ stack)

-- The `while` loop, with fuel; `none` is the end of the fuel.
pub walk : ℕ → Dict (List String) → List String → List String → Option (List String)
unfolding needs_of extend
walk fuel d found [] = some found
walk zero d found (x ∷ stack) = none
walk (suc fuel) d found (x ∷ stack) =
    let again = walk fuel d found stack in
    let onward = walk fuel d (x ∷ found) (extend (needs_of (get x d)) stack) in
    if elem x found then again else onward

-- The pushes that are still to come: the entries of the steps that were not met.
pub pushes : List String → Dict (List String) → ℕ
pushes found [] = 0
pushes found ((k, needs) ∷ d) = (if elem k found then 0 else length needs) + pushes found d

-- Each entry is pushed once, so the fuel is the start of the stack and all entries.
unfoldable pub transitive_dependencies : String → Dict (List String) → Option (List String)
unfolding walk pushes
transitive_dependencies a d =
    let stack = extend (needs_of (get a d)) [] in walk (length stack + pushes [] d) d [] stack

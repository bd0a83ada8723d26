-- ===== src/Tests/Nodes.antt =====
-- The arena of nodes with numbers for values.
use cddl.Prelude.{ℕ, [], ◌∷◌, none, some, refl, ◌==◌, ◌≡◌}
use cddl.Ast.Parent.{ArenaTree, link, parent_of}
use cddl.Ast.Parent.Indices.{Grows, link-Grows}

-- One under nothing, with two under it.
abbrev numbers : ArenaTree ℕ
numbers =
    (record { idx = 0; val = 1; parent = none; children = 1 ∷ [] })
    ∷ (record { idx = 1; val = 2; parent = some 0; children = [] })
    ∷ []

link-Grows_example : Grows numbers (link ◌==◌ 3 2 numbers)
link-Grows_example = link-Grows ◌==◌ 3 2 numbers (refl, (refl, tt))

-- A value that has a parent keeps it.
second_parent :
    (let o = link ◌==◌ 3 2 numbers in elim o [ none ↦ none | some a ↦ parent_of ◌==◌ 2 a ]) ≡ some 1
unfolding link parent_of
second_parent = refl

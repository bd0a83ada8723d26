-- ===== src/Ast/Parent.antt =====
-- src/ast/parent.rs: the arena of tree nodes with their parents, over any type of values with a test for
-- equality. An index that is out of range panics: `none`.
pub mod Indices
use cddl.Prelude.{
  ℕ, zero, suc, Bool, Option, none, some, List, [], ◌∷◌, ◌++◌, if◌then◌else◌, length, get_elem?,
}

pub record Node (T : Type 0) : Type 0 where
  pub idx : ℕ
  pub val : T
  pub parent : Option ℕ
  pub children : List ℕ

abbrev pub ArenaTree : Type 0 → Type 0
ArenaTree T = List (Node T)

module _ {T : Type 0} where
  unfoldable pub node_new : ℕ → T → Node T
  node_new idx val = record { idx = idx; val = val; parent = none; children = [] }

  -- Writes to the node at an index.
  unfoldable pub update_at : (Node T → Node T) → ℕ → ArenaTree T → Option (ArenaTree T)
  update_at f i [] = none
  update_at f zero (n ∷ ns) = some (f n ∷ ns)
  update_at f (suc i) (n ∷ ns) = elim (update_at f i ns) [ none ↦ none | some ms ↦ some (n ∷ ms) ]

  -- The first parent stays.
  abbrev pub set_parent : ℕ → Node T → Node T
  set_parent p n = record n { parent = elim n.parent [ none ↦ some p | some q ↦ some q ] }

  abbrev pub push_child : ℕ → Node T → Node T
  push_child c n = record n { children = n.children ++ (c ∷ []) }

  unfoldable pub insert : ℕ → ℕ → ArenaTree T → Option (ArenaTree T)
  unfolding update_at
  insert parent child a = elim (update_at (set_parent parent) child a) [
    | none ↦ none
    | some b ↦ update_at (push_child child) parent b
  ]

  module _ (eq : T → T → Bool) where
    unfoldable pub find_node : T → ArenaTree T → Option ℕ
    find_node v [] = none
    find_node v (n ∷ ns) = if eq n.val v then some n.idx else find_node v ns

    -- The node of a value, which is made where there is none.
    unfoldable pub node : T → ArenaTree T → ℕ × ArenaTree T
    unfolding find_node node_new
    node v a = elim (find_node v a) [
      | some i ↦ (i, a)
      | none ↦ (length a, a ++ (node_new (length a) v ∷ []))
    ]

    -- The `let parent = node(..); let child = node(..); insert(parent, child)?` of the visits.
    unfoldable pub link : T → T → ArenaTree T → Option (ArenaTree T)
    unfolding node insert
    link u v a = let (parent, b) = node u a in let (child, d) = node v b in insert parent child d

    -- `CDDLType::parent`, of the nodes from some place on, in the whole arena.
    unfoldable pub parent_from : T → ArenaTree T → ArenaTree T → Option T
    parent_from v a [] = none
    parent_from v a (n ∷ ns) =
        let rest = parent_from v a ns in
        if eq v n.val
        then elim n.parent [
          | none ↦ rest
          | some p ↦ elim (get_elem? a p) [ none ↦ rest | some m ↦ some m.val ]
        ]
        else rest

    unfoldable pub parent_of : T → ArenaTree T → Option T
    unfolding parent_from
    parent_of v a = parent_from v a a

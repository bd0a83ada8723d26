-- ===== src/Ast/Parent/Indices.antt =====
-- src/ast/parent.rs: the indices of the arena stay in range.
use cddl.Prelude.{
  ℕ, zero, suc, ◌+◌, ◌≤◌, ◌<◌, Bool, true, false, Option, none, some, [], ◌∷◌, ◌++◌, ◌≡◌, refl, ◌∙◌,
  arith, if◌then◌else◌, length, length-append,
}
use cddl.Ast.Parent.{
  Node, ArenaTree, node_new, update_at, set_parent, push_child, insert, find_node, node, link,
}

module _ {T : Type 0} where
  -- Each node has its place for its index, from the place `k` on.
  abbrev pub Indexed : ℕ → ArenaTree T → Type 0
  Indexed k [] = Unit
  Indexed k (n ∷ ns) = (n.idx ≡ k) × Indexed (suc k) ns

  abbrev Keeps : ℕ → ℕ → Option (ArenaTree T) → Type 0
  Keeps k l none = ⊥
  Keeps k l (some b) = (l ≤ length b) × Indexed k b

  -- Some arena, no shorter than it was and indexed.
  abbrev pub Grows : ArenaTree T → Option (ArenaTree T) → Type 0
  Grows a o = Keeps 0 (length a) o

  Keeps-cons :
      (k l : ℕ) (n : Node T) (o : Option (ArenaTree T))
      → n.idx ≡ k
      → Keeps (suc k) l o
      → Keeps k (suc l) (elim o [ none ↦ none | some ms ↦ some (n ∷ ms) ])
  Keeps-cons k l n none e h = h
  Keeps-cons k l n (some ms) e (m, h) = (omega arith, (e, h))

  Keeps-weaken : (l m : ℕ) (o : Option (ArenaTree T)) → l ≤ m → Keeps 0 m o → Keeps 0 l o
  Keeps-weaken l m none e h = h
  Keeps-weaken l m (some b) e (k, h) = (omega arith, h)

  update_at-Keeps :
      (f : Node T → Node T) (i k : ℕ) (a : ArenaTree T)
      → ((n : Node T) → (f n).idx ≡ n.idx)
      → i < length a
      → Indexed k a
      → Keeps k (length a) (update_at f i a)
  unfolding update_at
  update_at-Keeps f i k [] g l h = absurd (omega (arith, l))
  update_at-Keeps f zero k (n ∷ ns) g l (e, h) = (omega arith, (g n ∙ e, h))
  update_at-Keeps f (suc i) k (n ∷ ns) g l (e, h) =
      Keeps-cons k (length ns) n (update_at f i ns) e
        (update_at-Keeps f i (suc k) ns g (omega arith) h)

  pushed :
      (parent child l : ℕ) (o : Option (ArenaTree T))
      → parent < l
      → Keeps 0 l o
      → Keeps 0 l (elim o [ none ↦ none | some b ↦ update_at (push_child child) parent b ])
  pushed parent child l none p h = h
  pushed parent child l (some b) p (m, h) =
      Keeps-weaken l (length b) (update_at (push_child child) parent b) m
        (update_at-Keeps (push_child child) parent 0 b (λ n. refl) (omega arith) h)

  insert-Keeps :
      (parent child : ℕ) (a : ArenaTree T)
      → parent < length a
      → child < length a
      → Indexed 0 a
      → Keeps 0 (length a) (insert parent child a)
  unfolding insert
  insert-Keeps parent child a p c h =
      pushed parent child (length a) (update_at (set_parent parent) child a) p
        (update_at-Keeps (set_parent parent) child 0 a (λ n. refl) c h)

  Indexed-append :
      (k : ℕ) (a : ArenaTree T) (v : T) (i : ℕ)
      → i ≡ k + length a
      → Indexed k a
      → Indexed k (a ++ (node_new i v ∷ []))
  unfolding node_new
  Indexed-append k [] v i e h = (omega (arith, e), tt)
  Indexed-append k (n ∷ ns) v i e (d, h) = (d, Indexed-append (suc k) ns v i (omega (arith, e)) h)

  module _ (eq : T → T → Bool) where
    -- What a search comes to, from the place `k` on.
    abbrev Within : ℕ → ℕ → Option ℕ → Type 0
    Within k l none = Unit
    Within k l (some i) = i < k + l

    found :
        (b : Bool) (k l : ℕ) (n : Node T) (o : Option ℕ)
        → n.idx ≡ k
        → Within (suc k) l o
        → Within k (suc l) (if b then some n.idx else o)
    found true k l n o e h = omega (arith, e)
    found false k l n none e h = tt
    found false k l n (some i) e h = omega (arith, h)

    find_node-Within :
        (k : ℕ) (v : T) (a : ArenaTree T) → Indexed k a → Within k (length a) (find_node eq v a)
    unfolding find_node
    find_node-Within k v [] h = tt
    find_node-Within k v (n ∷ ns) (e, h) =
        found (eq n.val v) k (length ns) n (find_node eq v ns) e (find_node-Within (suc k) v ns h)

    -- A node in range, in an arena that is indexed and no shorter.
    abbrev Found : ArenaTree T → ℕ × ArenaTree T → Type 0
    Found a (i, b) = (i < length b) × ((length a ≤ length b) × Indexed 0 b)

    made :
        (v : T) (a : ArenaTree T) (o : Option ℕ)
        → Within 0 (length a) o
        → Indexed 0 a
        → Found a
            (elim o [ some i ↦ (i, a) | none ↦ (length a, a ++ (node_new (length a) v ∷ [])) ])
    made v a (some i) w h = (omega (arith, w), (omega arith, h))
    made v a none w h = (
      omega (arith, length-append a (node_new (length a) v ∷ [])),
      (
        omega (arith, length-append a (node_new (length a) v ∷ [])),
        Indexed-append 0 a v (length a) (omega arith) h,
      ),
    )

    node-Found : (v : T) (a : ArenaTree T) → Indexed 0 a → Found a (node eq v a)
    unfolding node
    node-Found v a h = made v a (find_node eq v a) (find_node-Within 0 v a h) h

    linked :
        (a b : ArenaTree T) (parent : ℕ) (r : ℕ × ArenaTree T)
        → Found a (parent, b)
        → Found b r
        → Grows a (let (child, d) = r in insert parent child d)
    linked a b parent (child, d) (p, (l, h)) (c, (m, k)) =
        Keeps-weaken (length a) (length d) (insert parent child d) (omega arith)
          (insert-Keeps parent child d (omega arith) c k)

    -- In an arena where each node has its place for its index, with any test for equality, linking a value
    -- under another one does not panic, and makes an arena of the kind that is no shorter.
    pub link-Grows : (u v : T) (a : ArenaTree T) → Indexed 0 a → Grows a (link eq u v a)
    unfolding link
    link-Grows u v a h =
        linked a (node eq u a).1 (node eq u a).0 (node eq v (node eq u a).1) (node-Found u a h)
          (node-Found v (node eq u a).1 (node-Found u a h).1.1)

-- ===== src/Lru/Segment.antt =====
-- Doubly linked segments: what stretch of the list a piece of memory holds, and how it changes
-- when its ends are linked anew.
use cs389hw.Shared.{
  ◌≡◌, refl, arith, true, false, List, [], ◌∷◌, ◌++◌, Key, some, Option, contains, Distinct, ◌==◌,
  nat_eq, eq_iff, subst, sym,
}
use cs389hw.Memory.{Ptr, Memory, write, Lives, Lives-write_self, Lives-write_ne}
use cs389hw.Lru.{Node, node}

-- The key and the address of each node, from the least recently used on.
abbrev pub Cells : Type 0
Cells = List (Key × Ptr)

abbrev pub ptrs : Cells → List Ptr
ptrs [] = []
ptrs ((k, p) ∷ xs) = p ∷ ptrs xs

-- From `first` the `next` pointers lead through the nodes of `xs` to `after`, and the `prev`
-- pointers lead from `last` back to `before`.
pub data Segment (m : Memory Node) : Ptr → Ptr → Cells → Ptr → Ptr → Type 0 where
  nil : {b f l a : Ptr} → f ≡ a → l ≡ b → Segment m b f [] l a
  cons :
      {b f l a p : Ptr} {k : Key} {xs : Cells} (q : Ptr)
      → f ≡ p
      → Lives m p (node b q k)
      → Segment m p q xs l a
      → Segment m b f ((k, p) ∷ xs) l a

pub ptrs-append : (xs ys : Cells) → ptrs (xs ++ ys) ≡ ptrs xs ++ ptrs ys
ptrs-append [] ys = refl
ptrs-append ((k, p) ∷ xs) ys = rw (ptrs-append xs ys)

module _ {m : Memory Node} where
  pub ends_of_nil : {b f l a : Ptr} → Segment m b f [] l a → (f ≡ a) × (l ≡ b)
  ends_of_nil (nil e e') = (e, e')

  pub uncons :
      {b f l a p : Ptr} {k : Key} {xs : Cells}
      → Segment m b f ((k, p) ∷ xs) l a
      → (q : Ptr) × (f ≡ p) × Lives m p (node b q k) × Segment m p q xs l a
  uncons (cons q e r s) = (q, e, r, s)

  pub split :
      (xs : Cells) {ys : Cells} {b f l a : Ptr}
      → Segment m b f (xs ++ ys) l a
      → (last first : Ptr) × Segment m b f xs last first × Segment m last first ys l a
  split [] {b} {f} s = (b, f, nil refl refl, s)
  split ((k, p) ∷ xs) s =
      let (q, e, r, rest) = uncons s in
      let (l, f, left, right) = split xs rest in (l, f, cons q e r left, right)

  pub join :
      {xs ys : Cells} {b f l a last first : Ptr}
      → Segment m b f xs last first
      → Segment m last first ys l a
      → Segment m b f (xs ++ ys) l a
  join (nil e e') t = rw (e, ← e') t
  join (cons q e r s) t = cons q e r (join s t)

  -- A write elsewhere leaves a segment alone.
  pub frame :
      {xs : Cells} {b f l a : Ptr} (p : Ptr) (c : Option Node)
      → contains p (ptrs xs) ≡ false
      → Segment m b f xs l a
      → Segment (write m p c) b f xs l a
  frame p c out (nil e e') = nil e e'
  frame p c out (cons {p = r'} q e r s) =
      cons q e (Lives-write_ne p c (ground (arith, eq_iff p r')) r) (frame p c (ground arith) s)

-- The last node of a segment, and the segment after that node's `next` is set.
pub record LastNode (m : Memory Node) (b f : Ptr) (xs : Cells) (l a : Ptr) : Type 0 where
  pub last_node : Node
  pub alive : Lives m l last_node
  pub links : last_node.next ≡ a
  pub inside : contains l (ptrs xs) ≡ true
  pub relink : (a' : Ptr) → Segment (write m l (some (record last_node { next = a' }))) b f xs l a'

module _ {m : Memory Node} where
  pub last_of :
      (xs : Cells) {k : Key} {p : Ptr} {b f l a : Ptr}
      → Segment m b f ((k, p) ∷ xs) l a
      → Distinct (p ∷ ptrs xs)
      → LastNode m b f ((k, p) ∷ xs) l a
  last_of [] {k} {p} {b} {l} s d =
      let (q, e, r, rest) = uncons s in
      let (e₁, e₂) = ends_of_nil rest in
      record {
        last_node = node b q k;
        alive = subst (λ x. Lives m x (node b q k)) (sym e₂) r;
        links = e₁;
        inside = ground (arith, eq_iff l p);
        relink = λ a'. cons a' e (rw e₂ (Lives-write_self _ r)) (nil refl e₂);
      }
  last_of ((j, r') ∷ xs) {p} {l} s d =
      let (q, e, r, rest) = uncons s in
      let end = last_of xs rest d.1 in
      let apart : (p == l) ≡ false = ground (arith, eq_iff p l, end.inside) in
      record {
        last_node = end.last_node;
        alive = end.alive;
        links = end.links;
        inside = ground (arith, end.inside);
        relink = λ a'. cons q e (Lives-write_ne l _ apart r) (end.relink a');
      }

  -- The first node takes another predecessor.
  pub relink_first :
      {k : Key} {p : Ptr} {xs : Cells} {b f l a : Ptr} (b' : Ptr)
      → Segment m b f ((k, p) ∷ xs) l a
      → contains p (ptrs xs) ≡ false
      → (q : Ptr) × Lives m f (node b q k)
        × Segment (write m f (some (node b' q k))) b' f ((k, p) ∷ xs) l a
  relink_first {k} {p} {xs} {b} {f} {l} {a} b' s out =
      let (q, e, r, rest) = uncons s in
      let end : Segment (write m p (some (node b' q k))) b' f ((k, p) ∷ xs) l a =
        cons q e (Lives-write_self _ r) (frame p (some (node b' q k)) out rest) in
      (
        q,
        subst (λ x. Lives m x (node b q k)) (sym e) r,
        subst (λ x. Segment (write m x (some (node b' q k))) b' f ((k, p) ∷ xs) l a) (sym e) end,
      )

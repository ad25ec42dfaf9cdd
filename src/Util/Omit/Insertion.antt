-- ===== src/Util/Omit/Insertion.antt =====
-- packages/util/index.js: an insertion into the tree of paths covers its path and keeps what was covered.
use middy.Prelude.{
  ◌≡◌, refl, ap, ◌∙◌, subst, ◌⊎◌, inl, inr, ◌≢◌, Bool, true, false, Option, none, some, List, [],
  ◌∷◌, map, arith, Bool-cases, if◌then◌else◌,
}
use middy.Texts.{Text, same, same_iff, same_refl}
use middy.Util.Omit.{
  Node, leaf, branch, Tree, empty, entry, get_node, set_node, OmitPath, path_segments, insert_path,
  insert_below, insert_paths, insert_segments, then_insert, is_unsafe, map_option,
}

-- A beginning of the path leads to a leaf.
abbrev pub Covers : List Text → Node → Type 0
Covers ss leaf = Unit
Covers [] (branch t) = ⊥
Covers (s ∷ ss) (branch t) = (n : Node) × (get_node s t ≡ some n) × Covers ss n

abbrev pub OnTree : (Tree → Type 0) → Option Tree → Type 0
OnTree P none = Unit
OnTree P (some t) = P t

abbrev pub IsMember : OmitPath → List OmitPath → Type 0
IsMember p [] = ⊥
IsMember p (q ∷ qs) = (p ≡ q) ⊎ IsMember p qs

get_node-set_node :
    (k j : Text) (n : Node) (t : Tree)
    → get_node j (set_node k n t) ≡ (if same k j then some n else get_node j t)
get_node-set_node k j n empty = refl
get_node-set_node k j n (entry i m t) =
    ground (arith, same_iff k j, same_iff i k, same_iff i j, get_node-set_node k j n t)

OnTree-map_option :
    (P : Tree → Type 0) (f : Tree → Tree) (o : Option Tree)
    → OnTree (λ t. P (f t)) o
    → OnTree P (map_option f o)
OnTree-map_option P f none h = tt
OnTree-map_option P f (some t) h = h

OnTree-mono :
    (P Q : Tree → Type 0) (o : Option Tree) → ((t : Tree) → P t → Q t) → OnTree P o → OnTree Q o
OnTree-mono P Q none h g = tt
OnTree-mono P Q (some t) h g = h t g

Covers-set_node_same :
    (s : Text) (ss : List Text) (n : Node) (t : Tree)
    → Covers ss n
    → Covers (s ∷ ss) (branch (set_node s n t))
Covers-set_node_same s ss n t h = (n, ground (arith, get_node-set_node s s n t, same_refl s), h)

-- Another node under one segment keeps what it covers below the others.
Covers-set_node :
    (s : Text) (p : List Text) (n : Node) (t : Tree)
    → ((m : Node) (ss : List Text) → get_node s t ≡ some m → Covers ss m → Covers ss n)
    → Covers p (branch t)
    → Covers p (branch (set_node s n t))
Covers-set_node s [] n t f h = h
Covers-set_node s (q ∷ qs) n t f (m, e, c) = elim (Bool-cases (same s q)) [
  | inl b ↦
      let d : s ≡ q = (same_iff s q).0 b in
      (n, ground (arith, get_node-set_node s q n t, b), f m qs (ap (λ j. get_node j t) d ∙ e) c)
  | inr b ↦ (m, ground (arith, get_node-set_node s q n t, b, e), c)
]

insert_below-Covers :
    (s : Text) (ss : List Text) (o : Option Node) (f : Tree → Option Tree) (t : Tree)
    → ((c : Tree) → OnTree (λ d. Covers ss (branch d)) (f c))
    → OnTree (λ u. Covers (s ∷ ss) (branch u)) (insert_below s o f t)
insert_below-Covers s ss none f t h =
    OnTree-map_option (λ u. Covers (s ∷ ss) (branch u)) (λ c. set_node s (branch c) t) (f empty)
      (OnTree-mono (λ d. Covers ss (branch d)) _ (f empty)
        (λ d. Covers-set_node_same s ss (branch d) t) (h empty))
insert_below-Covers s ss (some leaf) f t h = tt
insert_below-Covers s ss (some (branch c)) f t h =
    OnTree-map_option (λ u. Covers (s ∷ ss) (branch u)) (λ c. set_node s (branch c) t) (f c)
      (OnTree-mono (λ d. Covers ss (branch d)) _ (f c) (λ d. Covers-set_node_same s ss (branch d) t)
        (h c))

insert_path-Covers :
    (s : Text) (ss : List Text) (t : Tree)
    → OnTree (λ u. Covers (s ∷ ss) (branch u)) (insert_path s ss t)
unfolding insert_path
insert_path-Covers s [] t = Covers-set_node_same s [] leaf t tt
insert_path-Covers s (r ∷ rs) t =
    insert_below-Covers s (r ∷ rs) (get_node s t) (insert_path r rs) t (insert_path-Covers r rs)

-- What was covered before an insertion is covered after it.
abbrev pub Keeps : Tree → Option Tree → Type 0
Keeps t o = (p : List Text) → Covers p (branch t) → OnTree (λ u. Covers p (branch u)) o

set_branch-Keeps :
    (s : Text) (c t : Tree) (o : Option Tree)
    → get_node s t ≡ some (branch c)
    → Keeps c o
    → Keeps t (map_option (λ d. set_node s (branch d) t) o)
set_branch-Keeps s c t none e h p k = tt
set_branch-Keeps s c t (some d) e h p k =
    Covers-set_node s p (branch d) t
      (λ m ss g v. h ss (subst (Covers ss) {x = m} {y = branch c} (ground (arith, e, g)) v)) k

new_branch-Keeps :
    (s : Text) (t : Tree) (o : Option Tree)
    → get_node s t ≡ none
    → Keeps t (map_option (λ d. set_node s (branch d) t) o)
new_branch-Keeps s t none e p k = tt
new_branch-Keeps s t (some d) e p k =
    Covers-set_node s p (branch d) t (λ m ss g v. absurd (ground (arith, e, g))) k

insert_below-Keeps :
    (s : Text) (o : Option Node) (f : Tree → Option Tree) (t : Tree)
    → get_node s t ≡ o
    → ((c : Tree) → Keeps c (f c))
    → Keeps t (insert_below s o f t)
insert_below-Keeps s none f t e h p k = new_branch-Keeps s t (f empty) e p k
insert_below-Keeps s (some leaf) f t e h p k = tt
insert_below-Keeps s (some (branch c)) f t e h p k = set_branch-Keeps s c t (f c) e (h c) p k

insert_path-Keeps : (s : Text) (ss : List Text) (t : Tree) → Keeps t (insert_path s ss t)
unfolding insert_path
insert_path-Keeps s [] t p k = Covers-set_node s p leaf t (λ m ss g v. tt) k
insert_path-Keeps s (r ∷ rs) t p k =
    insert_below-Keeps s (get_node s t) (insert_path r rs) t refl (insert_path-Keeps r rs) p k

OnTree-if :
    (P : Tree → Type 0) (b : Bool) (x y : Option Tree)
    → (b ≡ true → OnTree P x)
    → (b ≡ false → OnTree P y)
    → OnTree P (if b then x else y)
OnTree-if P true x y f g = f refl
OnTree-if P false x y f g = g refl

insert_segments-Keeps : (ss : List Text) (t : Tree) → Keeps t (insert_segments ss t)
unfolding insert_segments
insert_segments-Keeps [] t p k = k
insert_segments-Keeps (s ∷ ss) t p k =
    OnTree-if (λ u. Covers p (branch u)) (is_unsafe (s ∷ ss)) (some t) (insert_path s ss t) (λ _. k)
      (λ _. insert_path-Keeps s ss t p k)

insert_segments-Covers :
    (ss : List Text) (t : Tree)
    → is_unsafe ss ≡ false
    → ss ≢ []
    → OnTree (λ u. Covers ss (branch u)) (insert_segments ss t)
unfolding insert_segments
insert_segments-Covers [] t h n = absurd (n refl)
insert_segments-Covers (s ∷ ss) t h n =
    OnTree-if (λ u. Covers (s ∷ ss) (branch u)) (is_unsafe (s ∷ ss)) (some t) (insert_path s ss t)
      (λ e. absurd cc) (λ _. insert_path-Covers s ss t)

then_insert-Keeps :
    (p : List Text) (f : Tree → Option Tree) (o : Option Tree)
    → ((t : Tree) → Keeps t (f t))
    → OnTree (λ u. Covers p (branch u)) o
    → OnTree (λ u. Covers p (branch u)) (then_insert f o)
then_insert-Keeps p f none h k = tt
then_insert-Keeps p f (some u) h k = h u p k

OnTree-then_insert :
    (P : Tree → Type 0) (f : Tree → Option Tree) (o : Option Tree)
    → ((t : Tree) → OnTree P (f t))
    → OnTree P (then_insert f o)
OnTree-then_insert P f none h = tt
OnTree-then_insert P f (some u) h = h u

module _ (lower : Text → Text) where
  insert_paths-Keeps : (ps : List OmitPath) (t : Tree) → Keeps t (insert_paths lower ps t)
  unfolding insert_paths
  insert_paths-Keeps [] t p k = k
  insert_paths-Keeps (q ∷ qs) t p k =
      then_insert-Keeps p (insert_paths lower qs) (insert_segments (map lower (path_segments q)) t)
        (insert_paths-Keeps qs) (insert_segments-Keeps (map lower (path_segments q)) t p k)

  pub insert_paths-Covers :
      (p : OmitPath) (ps : List OmitPath) (t : Tree)
      → IsMember p ps
      → is_unsafe (map lower (path_segments p)) ≡ false
      → map lower (path_segments p) ≢ []
      → OnTree (λ u. Covers (map lower (path_segments p)) (branch u)) (insert_paths lower ps t)
  unfolding insert_paths
  insert_paths-Covers p [] t m h n = absurd m
  insert_paths-Covers p (q ∷ qs) t (inl e) h n =
      then_insert-Keeps (map lower (path_segments p)) (insert_paths lower qs)
        (insert_segments (map lower (path_segments q)) t) (insert_paths-Keeps qs)
        (subst
          (λ r.
            OnTree (λ u. Covers (map lower (path_segments p)) (branch u))
              (insert_segments (map lower (path_segments r)) t))
          {x = p} {y = q} e (insert_segments-Covers (map lower (path_segments p)) t h n))
  insert_paths-Covers p (q ∷ qs) t (inr m) h n =
      OnTree-then_insert (λ u. Covers (map lower (path_segments p)) (branch u))
        (insert_paths lower qs) (insert_segments (map lower (path_segments q)) t)
        (λ u. insert_paths-Covers p qs u m h n)

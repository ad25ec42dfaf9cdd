-- ===== src/Util/Omit/Tests.antt =====
-- packages/util/index.js: runs of `buildPathTree` and `omit` at concrete inputs.
use middy.Prelude.{◌==◌, ◌≡◌, refl, inl, inr, true, false, none, some, List, [], ◌∷◌, if◌then◌else◌}
use middy.Texts.{Text, units, ascii_lower}
use middy.Util.Internal.{path_parts}
use middy.Util.Omit.{
  leaf, branch, Tree, empty, entry, OmitPath, dotted, insert_path, insert_segments, insert_paths,
  build_path_tree, Value, simple, array, record_object, nil, cons, end, field, omit,
}
use middy.Util.Omit.Reaching.{IsFoldedTree, Reaches}
use middy.Util.Omit.Redaction.{omit-IsRedacted_lem}
use middy.Util.Omit.Paths.{omit_removes_paths}

abbrev paths : List OmitPath
paths = dotted (units "event.Token") ∷ dotted (units "event") ∷ dotted (units "rows.[].id") ∷ []

abbrev tree : Tree
tree =
    entry (units "rows")
      (branch (entry (units "[]") (branch (entry (units "id") leaf empty)) empty))
      (entry (units "event") leaf empty)

tree-IsFolded : IsFoldedTree ascii_lower tree
tree-IsFolded = (
  refl,
  (
    λ b e. absurd cc,
    (
      (refl, (λ b e. absurd cc, ((refl, (λ b e. absurd cc, (tt, tt))), tt))),
      (refl, (λ b e. absurd cc, (tt, tt))),
    ),
  ),
)

builds : build_path_tree ascii_lower paths ≡ some tree
unfolding build_path_tree insert_paths insert_segments insert_path path_parts
builds = refl

abbrev request : Value
request = record_object (
    field (units "Event") (simple 1) (
      field (units "rows")
        (array (
          cons (record_object (field (units "ID") (simple 2) (field (units "n") (simple 3) end)))
            nil))
        end))

abbrev masked : Value
masked = record_object (
    field (units "Event") (simple 9) (
      field (units "rows")
        (array (
          cons (record_object (field (units "ID") (simple 9) (field (units "n") (simple 3) end)))
            nil))
        end))

abbrev cut : Value
cut =
    record_object (
      field (units "rows") (array (cons (record_object (field (units "n") (simple 3) end)) nil))
        end)

masks : omit ascii_lower (some (simple 9)) request (some (branch tree)) ≡ some (masked, true)
unfolding omit
masks = refl

removes : omit ascii_lower none request (some (branch tree)) ≡ some (cut, true)
unfolding omit
removes = refl

omit-IsRedacted_lem_example : some (simple 9) ≡ some (simple 9)
omit-IsRedacted_lem_example =
    omit-IsRedacted_lem ascii_lower (some (simple 9)) request masked true tree (units "event" ∷ [])
      (simple 9) tree-IsFolded (leaf, refl, tt) masks
      (simple 9, ((units "Event", (refl, (refl, inl (refl, refl)))), refl))

omit_removes_paths_example :
    ¬ ((w : Value) × Reaches ascii_lower (units "rows" ∷ units "[]" ∷ units "id" ∷ []) cut w)
unfolding path_parts
omit_removes_paths_example =
    omit_removes_paths ascii_lower paths (dotted (units "rows.[].id")) tree request cut true
      (inr (inr (inl refl))) refl builds tree-IsFolded removes

-- Two paths that differ only by case where one goes on after the other.
clash_throws : build_path_tree ascii_lower (dotted (units "a") ∷ dotted (units "A.b") ∷ []) ≡ none
unfolding build_path_tree insert_paths insert_segments insert_path path_parts
clash_throws = refl

-- A path that ends in `[]`, at an element that is an object.
brackets_throw :
    omit ascii_lower none
      (record_object (field (units "a") (array (cons (record_object end) nil)) end))
      (some (branch (entry (units "a") (branch (entry (units "[]") leaf empty)) empty)))
    ≡ none
unfolding omit
brackets_throw = refl

-- `"İ".toLowerCase()` is two code units long, so that the key `İ` is left where the path is `İ`.
abbrev dotted_lower : Text → Text
dotted_lower [] = []
dotted_lower (c ∷ cs) = if c == 304 then 105 ∷ 775 ∷ dotted_lower cs else c ∷ dotted_lower cs

dotted_key_is_left :
    omit dotted_lower none
      (record_object (field (304 ∷ []) (simple 1) end))
      (some (branch (entry (dotted_lower (304 ∷ [])) leaf empty)))
    ≡ some (record_object (field (304 ∷ []) (simple 1) end), false)
unfolding omit
dotted_key_is_left = refl

-- ===== src/Bridge/Roots.antt =====
-- internal/mediapath/mediapath.go: the directories that outbound media may be read from.
-- filepath.Abs followed by EvalSymlinks, and filepath.Rel, are parameters.
use whatsapp_connect_mcp.Prelude.{
  String, Bool, false, not, ◌&&◌, ◌||◌, Option, none, some, List, [], ◌∷◌, ◌==◌, Result, ok, err,
}
use whatsapp_connect_mcp.Tools.Banner.{starts}

pub record Paths : Type 0 where
  pub canonical : String → Option String
  pub rel : String → String → Option String

-- The resolved directories; the empty list allows nothing.
pub record Roots : Type 0 where
  pub dirs : List String

pub data RootsError : Type 0 where
  no_directories : RootsError
  unresolved : String → RootsError

module _ (paths : Paths) where
  abbrev resolved : String → Result RootsError (List String) → Result RootsError (List String)
  resolved dir (ok dirs) = ok (dir ∷ dirs)
  resolved dir (err e) = err e

  unfoldable pub resolve_all : List String → Result RootsError (List String)
  resolve_all [] = ok []
  resolve_all (d ∷ ds) = elim (paths.canonical d) [
    | none ↦ err (unresolved d)
    | some dir ↦ resolved dir (resolve_all ds)
  ]

  abbrev rooted : Result RootsError (List String) → Result RootsError Roots
  rooted (ok dirs) = ok (record { dirs = dirs })
  rooted (err e) = err e

  -- New
  unfoldable pub new_roots : List String → Result RootsError Roots
  unfolding resolve_all
  new_roots [] = err no_directories
  new_roots (d ∷ ds) = rooted (resolve_all (d ∷ ds))

  abbrev inside : String → Bool
  inside rel = not (rel == ".." || starts "../" rel) && not (rel == ".")

  -- contains
  unfoldable pub contains : String → String → Bool
  contains root target = elim (paths.rel root target) [ none ↦ false | some rel ↦ inside rel ]

  abbrev any_contains : List String → String → Bool
  any_contains [] target = false
  any_contains (d ∷ ds) target = contains d target || any_contains ds target

  -- Allows
  unfoldable pub allows : Roots → String → Bool
  unfolding contains
  allows r path = elim r.dirs [
    | [] ↦ false
    | d ∷ ds ↦ elim (paths.canonical path) [
      | none ↦ false
      | some target ↦ any_contains (d ∷ ds) target
    ]
  ]

-- ===== src/Verify/Mutation/Sites.antt =====
-- The edit sites: `collectSites`, `collectRaceSites`, and what they call
-- (internal/verify/mutation.go).
use go_cascade.Base.{
  str_eq, if◌then◌else◌, any, ℕ, suc, String, ◌<>◌, Bool, true, false, Option, none, some, List, [],
  ◌∷◌, ◌++◌,
}

-- What a node is, with the names and operators that the edits read. A declaration of variables or
-- fields has their names, and its type if that is a name in a package.
pub data Kind : Type 0 where
  binary inc_dec selector ident : String → Kind
  declares : List String → Option (String × String) → Kind
  if_stmt block expr_stmt defer_stmt call func_lit return_stmt branch_stmt other : Kind

-- A node: what it is, `Pos()`, `End()`, and the position of its operator or its closing brace.
mutual
  pub data Ast : Type 0 where
    node : Kind → (begins ends mark : ℕ) → Asts → Ast

  pub data Asts : Type 0 where
    nil : Asts
    cons : Ast → Asts → Asts

-- A parsed file, with its comments' extents.
pub record Source : Type 0 where
  pub tree : Ast
  pub comments : List (ℕ × ℕ)
  pub place : ℕ → String

-- An edit, of a node by its number in the order of `ast.Inspect`.
pub data Edit : Type 0 where
  set_token : ℕ → String → Edit
  negate : ℕ → Edit
  delete_stmt : ℕ → ℕ → Edit
  read_lock : (block lock unlock declaration : ℕ) → Edit
  undefer : (block unlock : ℕ) → Edit
  swap_stmts : (block first second : ℕ) → Edit
  defer_call : ℕ → ℕ → Edit

-- A `mutation`: the edit, and what it is called.
pub record Site : Type 0 where
  pub edit : Edit
  pub desc : String

abbrev pub kind_of : Ast → Kind
kind_of (node k b e m kids) = k

abbrev pub begins_of : Ast → ℕ
begins_of (node k b e m kids) = b

abbrev pub ends_of : Ast → ℕ
ends_of (node k b e m kids) = e

abbrev pub mark_of : Ast → ℕ
mark_of (node k b e m kids) = m

abbrev pub to_list : Asts → List Ast
to_list nil = []
to_list (cons a as') = a ∷ to_list as'

abbrev pub kids_of : Ast → List Ast
kids_of (node k b e m kids) = to_list kids

-- The nodes in the order of `ast.Inspect`.
unfoldable mutual
  pub nodes : Ast → List Ast
  nodes (node k b e m kids) = node k b e m kids ∷ nodes_of kids

  pub nodes_of : Asts → List Ast
  nodes_of nil = []
  nodes_of (cons a rest) = nodes a ++ nodes_of rest

unfoldable pub swap_of : String → Option String
swap_of op =
    if str_eq op "<"
    then some "<="
    else if str_eq op "<="
    then some "<"
    else if str_eq op ">"
    then some ">="
    else if str_eq op ">="
    then some ">"
    else if str_eq op "=="
    then some "!="
    else if str_eq op "!="
    then some "=="
    else if str_eq op "+"
    then some "-"
    else if str_eq op "-"
    then some "+"
    else if str_eq op "&&"
    then some "||"
    else if str_eq op "||"
    then some "&&"
    else none

module _ (src : Source) where
  open src use {place}

  abbrev retoken : ℕ → ℕ → String → String → Site
  retoken i pos from to = record {
    edit = set_token i to;
    desc = place pos <> ": " <> from <> " -> " <> to;
  }

  abbrev binary_site : ℕ → ℕ → String → Option String → List Site
  binary_site i pos op none = []
  binary_site i pos op (some to) = retoken i pos op to ∷ []

  abbrev logic_site : ℕ → Ast → List Site
  logic_site i (node (binary op) b e m kids) = binary_site i m op (swap_of op)
  logic_site i (node (inc_dec tok) b e m kids) =
      retoken i m tok (if str_eq tok "++" then "--" else "++") ∷ []
  logic_site i (node if_stmt b e m kids) =
      record { edit = negate i; desc = place b <> ": negate condition" } ∷ []
  logic_site i _ = []

  logic_sites : ℕ → List Ast → List Site
  logic_sites i [] = []
  logic_sites i (n ∷ ns) = logic_site i n ++ logic_sites (suc i) ns

  unfoldable pub collect_sites : List Site
  unfolding logic_sites nodes swap_of
  collect_sites = logic_sites 0 (nodes src.tree)

-- The receiver and the method of a call `x.m(…)`.
abbrev selected : List Ast → Option (Ast × String)
selected (node (selector m) b e k (cons x rest) ∷ args) = some (x, m)
selected _ = none

abbrev method_call : Ast → Option (Ast × String)
method_call (node call b e m kids) = selected (to_list kids)
method_call _ = none

abbrev first_call : Asts → Option (Ast × String)
first_call nil = none
first_call (cons c rest) = method_call c

abbrev bare_call : Ast → Option (Ast × String)
bare_call (node expr_stmt b e m kids) = first_call kids
bare_call _ = none

abbrev pub is_deferred : Ast → Bool
is_deferred (node defer_stmt b e m kids) = true
is_deferred _ = false

abbrev pub is_expr : Ast → Bool
is_expr (node expr_stmt b e m kids) = true
is_expr _ = false

-- `syncCall`, the receiver not yet a text.
abbrev pub sync_call : Ast → Option (Ast × String)
sync_call (node expr_stmt b e m kids) = first_call kids
sync_call (node defer_stmt b e m kids) = first_call kids
sync_call _ = none

abbrev sync_methods : List String
sync_methods = "Wait" ∷ "Lock" ∷ "Unlock" ∷ "RLock" ∷ "RUnlock" ∷ []

module _ (src : Source) where
  open src use {place}

  abbrev deletion : (block at : ℕ) → Ast → Option (Ast × String) → List Site
  deletion i k stmt none = []
  deletion i k stmt (some (x, m)) =
      if any (str_eq m) sync_methods
      then record {
        edit = delete_stmt i k;
        desc = place (begins_of stmt) <> ": delete ." <> m <> "()";
      }
        ∷ []
      else []

  deletions : (block at : ℕ) → List Ast → List Site
  deletions i k [] = []
  deletions i k (s ∷ ss) = deletion i k s (bare_call s) ++ deletions i (suc k) ss

  abbrev race_site : ℕ → Ast → List Site
  race_site i (node block b e m kids) = deletions i 0 (to_list kids)
  race_site i _ = []

  race_sites : ℕ → List Ast → List Site
  unfolding deletions
  race_sites i [] = []
  race_sites i (n ∷ ns) = race_site i n ++ race_sites (suc i) ns

  unfoldable pub collect_race_sites : List Site
  unfolding race_sites nodes
  collect_race_sites = race_sites 0 (nodes src.tree)

-- ===== src/Verify/Mutation/ScarFree.antt =====
-- The edit sites that leave no scar: `collectScarFreeRaceSites` and what it calls
-- (internal/verify/mutation.go).
use Prim.Native.Char.{code}
use go_cascade.Base.{
  ltb, ◌==◌, str_eq, if◌then◌else◌, length, get_elem?, drop, any, ℕ, suc, ◌-◌, String, ◌<>◌, Bool,
  true, false, not, ◌&&◌, ◌||◌, Option, none, some, List, [], ◌∷◌, ◌++◌,
}
use go_cascade.Verify.Mutation.Sites.{
  Kind, Ast, Asts, Source, Site, kind_of, begins_of, ends_of, mark_of, to_list, kids_of, nodes,
  is_deferred, is_expr, sync_call, declares, cons, nil, node, func_lit, return_stmt, branch_stmt,
  call, ident, block, read_lock, undefer, swap_stmts, defer_call,
}

-- The text behind the last dot.
after_dot : String → Option String
after_dot String.[] = none
after_dot (String.◌∷◌ c s) =
    let here = if code c == b'.' then some s else none in
    elim (after_dot s) [ some t ↦ some t | none ↦ here ]

last_part : String → String
unfolding after_dot
last_part s = elim (after_dot s) [ some t ↦ t | none ↦ s ]

abbrev declares_lock : String → Kind → Bool
declares_lock name (declares names (some (pkg, t))) =
    str_eq pkg "sync" && (str_eq t "Mutex" || str_eq t "RWMutex") && any (str_eq name) names
declares_lock name _ = false

-- `mutexTypeOf`: the number of the first declaration of the lock.
unfoldable pub mutex_type_of : String → ℕ → List Ast → Option ℕ
mutex_type_of name i [] = none
mutex_type_of name i (n ∷ ns) =
    let rest = mutex_type_of name (suc i) ns in
    if declares_lock name (kind_of n) then some i else rest

-- Whether control may leave: a return, a jump, or a call of `panic`, outside function literals.
abbrev calls_panic : Asts → Bool
calls_panic (cons (node (ident name) b e m kids) args) = str_eq name "panic"
calls_panic _ = false

abbrev leaves : Kind → Asts → Bool → Bool
leaves func_lit kids inside = false
leaves return_stmt kids inside = true
leaves branch_stmt kids inside = true
leaves call kids inside = calls_panic kids || inside
leaves _ kids inside = inside

unfoldable mutual
  pub exits : Ast → Bool
  exits (node k b e m kids) = leaves k kids (exits_any kids)

  pub exits_any : Asts → Bool
  exits_any nil = false
  exits_any (cons a rest) = exits a || exits_any rest

unfoldable pub exits_in : List Ast → Bool
unfolding exits
exits_in stmts = any exits stmts

unfoldable pub has_comment_in : List (ℕ × ℕ) → (from to : ℕ) → Bool
has_comment_in comments from to = any (λ c. ltb from c.1 && ltb c.0 to) comments

module _ (print_expr : Ast → String) (src : Source) where
  open src use {place, comments}

  abbrev matches : String → Option (Ast × String) → Bool
  matches recv none = false
  matches recv (some (x, m)) = str_eq (print_expr x) recv && str_eq m "Unlock"

  -- The matching Unlock in the statements from number `j` on.
  find_unlock : String → ℕ → List Ast → Option (ℕ × Ast)
  find_unlock recv j [] = none
  find_unlock recv j (s ∷ ss) =
      let rest = find_unlock recv (suc j) ss in
      if matches recv (sync_call s) then some (j, s) else rest

  abbrev downgrade : (i lock unlock : ℕ) → Ast → String → Option ℕ → List Site
  downgrade i k j stmt recv none = []
  downgrade i k j stmt recv (some d) =
      record {
        edit = read_lock i k j d;
        desc =
            place (begins_of stmt)
            <> ": downgrade "
            <> recv
            <> " Lock/Unlock to RLock/RUnlock, declaration to sync.RWMutex (guarded write loses exclusivity)";
      }
      ∷ []

  last_begins : ℕ → List Ast → ℕ
  last_begins p [] = p
  last_begins p (s ∷ ss) = last_begins (begins_of s) ss

  -- The deferred form: the last guarded statement leaves the critical section.
  abbrev undeferred : (i : ℕ) → Ast → (j : ℕ) → Ast → String → List Ast → List Site
  undeferred i blk j unlock recv guarded =
      if ltb (length guarded) 2
      then []
      else if has_comment_in comments (begins_of unlock) (mark_of blk)
      then []
      else if exits_in guarded
      then []
      else record {
        edit = undefer i j;
        desc =
            place (last_begins 0 guarded)
            <> ": move statement out of the "
            <> recv
            <> " critical section, undeferring the Unlock";
      }
        ∷ []

  abbrev swap_site : (i j : ℕ) → String → Option Ast → Option Ast → ℕ → List Site
  swap_site i j recv (some before) (some escapee) to =
      if has_comment_in comments (ends_of before) to
      then []
      else record {
        edit = swap_stmts i (j - 1) j;
        desc =
            place (begins_of escapee)
            <> ": move statement out of the "
            <> recv
            <> " critical section";
      }
        ∷ []
  swap_site i j recv _ _ to = []

  abbrev next_begins : Ast → Option Ast → ℕ
  next_begins blk none = mark_of blk
  next_begins blk (some s) = begins_of s

  -- The bare form: the last guarded statement and the Unlock change places.
  abbrev moved_out : (i : ℕ) → Ast → (k j : ℕ) → String → List Site
  moved_out i blk k j recv =
      let stmts = kids_of blk in
      if ltb (j - k) 3
      then []
      else swap_site i j recv (get_elem? stmts (j - 2)) (get_elem? stmts (j - 1))
          (next_begins blk (get_elem? stmts (suc j)))

  abbrev unlocked : (i : ℕ) → Ast → (k : ℕ) → Ast → String → Option (ℕ × Ast) → List Site
  unlocked i blk k stmt recv none = []
  unlocked i blk k stmt recv (some (j, unlock)) =
      let decl = mutex_type_of (last_part recv) 0 (nodes src.tree) in
      downgrade i k j stmt recv decl
      ++ (if is_deferred unlock
          then undeferred i blk j unlock recv (drop (suc j) (kids_of blk))
          else moved_out i blk k j recv)

  abbrev deferred_wait : (i : ℕ) → Ast → (k : ℕ) → Ast → String → List Site
  deferred_wait i blk k stmt recv =
      if is_deferred stmt || suc k == length (kids_of blk) || not (is_expr stmt)
      then []
      else record {
        edit = defer_call i k;
        desc =
            place (begins_of stmt)
            <> ": defer "
            <> recv
            <> ".Wait() (it runs, but no longer before the reads)";
      }
        ∷ []

  -- The sites at statement `k` of a block, with the statements behind it.
  abbrev scar_free_at : (i : ℕ) → Ast → (k : ℕ) → Ast → List Ast → Option (Ast × String) → List Site
  scar_free_at i blk k stmt rest none = []
  scar_free_at i blk k stmt rest (some (x, m)) =
      let recv = print_expr x in
      if str_eq m "Lock"
      then unlocked i blk k stmt recv (find_unlock recv (suc k) rest)
      else if str_eq m "Wait"
      then deferred_wait i blk k stmt recv
      else []

  scar_free_stmts : (i : ℕ) → Ast → (k : ℕ) → List Ast → List Site
  scar_free_stmts i blk k [] = []
  scar_free_stmts i blk k (s ∷ ss) =
      scar_free_at i blk k s ss (sync_call s) ++ scar_free_stmts i blk (suc k) ss

  abbrev scar_free_block : ℕ → Ast → List Site
  scar_free_block i (node block b e m kids) =
      scar_free_stmts i (node block b e m kids) 0 (to_list kids)
  scar_free_block i _ = []

  scar_free_sites : ℕ → List Ast → List Site
  unfolding scar_free_stmts
  scar_free_sites i [] = []
  scar_free_sites i (n ∷ ns) = scar_free_block i n ++ scar_free_sites (suc i) ns

  unfoldable pub collect_scar_free_race_sites : List Site
  unfolding scar_free_sites find_unlock last_begins last_part mutex_type_of has_comment_in exits_in
      nodes
  collect_scar_free_race_sites = scar_free_sites 0 (nodes src.tree)

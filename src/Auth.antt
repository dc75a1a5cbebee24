-- ===== src/Auth.antt =====
-- internal/auth/scope.go: what the key of a principal permits. strings.ToLower after
-- strings.TrimSpace is the parameter `normal`.
pub mod Scopes
pub mod Tests
use file_dbv.Prelude.{
  Bool, true, false, Option, none, some, List, [], ◌∷◌, Str, codes, ◌==◌, nat_eq, str_eq, ◌||◌,
  if◌then◌else◌,
}
use file_dbv.Result.{Result, ok, err, unknown_scope}

pub data Scope : Type 0 where
  scope_read scope_read_write : Scope

unfoldable pub scope_string : Scope → Str
scope_string scope_read = codes "read"
scope_string scope_read_write = codes "read-write"

abbrev pub listed : Str → List Str → Bool
listed s [] = false
listed s (x ∷ xs) = let rest = listed s xs in if x == s then true else rest

unfoldable pub parse_scope : (Str → Str) → Str → Result Scope
parse_scope normal s =
    let spelling = normal s in
    if listed spelling ([] ∷ codes "read" ∷ codes "ro" ∷ codes "readonly" ∷ codes "read-only" ∷ [])
    then ok scope_read
    else if listed spelling
        (codes "read-write" ∷ codes "readwrite" ∷ codes "rw" ∷ codes "write" ∷ [])
    then ok scope_read_write
    else err unknown_scope

abbrev pub write_methods : List Str
write_methods =
    codes "CreateCollection"
    ∷ codes "DropCollection"
    ∷ codes "Insert"
    ∷ codes "InsertMany"
    ∷ codes "Update"
    ∷ codes "Delete"
    ∷ codes "EnsureIndex"
    ∷ codes "DropIndex"
    ∷ codes "BeginTx"
    ∷ codes "CommitTx"
    ∷ codes "RollbackTx"
    ∷ codes "Compact"
    ∷ codes "Promote"
    ∷ []

abbrev pub read_methods : List Str
read_methods =
    codes "ListCollections"
    ∷ codes "FindById"
    ∷ codes "Find"
    ∷ codes "ListIndexes"
    ∷ codes "Watch"
    ∷ codes "CollectionStats"
    ∷ codes "Snapshot"
    ∷ codes "Replicate"
    ∷ codes "ReplicationStatus"
    ∷ []

-- What stands behind the last '/', if there is one.
unfoldable pub after_last_slash : Str → Option Str
after_last_slash [] = none
after_last_slash (x ∷ xs) = elim (after_last_slash xs) [
  | some name ↦ some name
  | none ↦ if x == 47 then some xs else none
]

unfoldable pub method_name : Str → Str
unfolding after_last_slash
method_name full_method = elim (after_last_slash full_method) [
  | none ↦ full_method
  | some name ↦ name
]

unfoldable pub method_requires_write : Str → Bool
unfolding method_name
method_requires_write full_method =
    let name = method_name full_method in
    if listed name write_methods then true else if listed name read_methods then false else true

-- ===== src/Glue.antt =====
-- The table of glue.go that names sessions to the C library: an id goes into the C context as its
-- client data, and comes back with every callback. Each function runs under dracCtxRefsLock.
pub mod Table
pub mod Sockets
use dracd.Common.{ℕ, ◌+◌, List, [], ◌∷◌, Option, none, some, ◌==◌, if◌then◌else◌}

-- dracCtxRefs and dracCtxRefsNextID. A *DracCtx is a number.
pub record Refs : Type 0 where
  pub table : List (ℕ × ℕ)
  pub next_id : ℕ

-- What the C library keeps of a C.client_ctx that AllocDracClientCtx made: alloc_client_ctx stores the
-- id, and get_client_data gives it back.
pub record ClientCtx : Type 0 where
  pub client_data : ℕ
  pub drac_type : ℕ

find : ℕ → List (ℕ × ℕ) → Option ℕ
find id [] = none
find id ((i, d) ∷ table) = if i == id then some d else find id table

store : ℕ → ℕ → List (ℕ × ℕ) → List (ℕ × ℕ)
store id d [] = (id, d) ∷ []
store id d ((i, e) ∷ table) = if i == id then (id, d) ∷ table else (i, e) ∷ store id d table

remove : ℕ → List (ℕ × ℕ) → List (ℕ × ℕ)
remove id [] = []
remove id ((i, e) ∷ table) = if i == id then remove id table else (i, e) ∷ remove id table

-- AllocDracClientCtx: the session `drac` under a new id.
pub alloc_drac_client_ctx : Refs → (drac kind : ℕ) → Refs × ClientCtx
alloc_drac_client_ctx r drac kind = (
  record { table = store r.next_id drac r.table; next_id = r.next_id + 1 },
  record { client_data = r.next_id; drac_type = kind },
)

-- FreeDracClientCtx.
pub free_drac_client_ctx : Refs → ClientCtx → Refs
free_drac_client_ctx r c = record r { table = remove c.client_data r.table }

-- GetDracCtx: nil if the id is not there.
pub get_drac_ctx : Refs → ClientCtx → Option ℕ
get_drac_ctx r c = find c.client_data r.table

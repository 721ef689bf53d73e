-- ===== src/Glue/Table.antt =====
-- Every context that is allocated and not freed leads back to its session.
use dracd.Common.{
  inr, inl, Bool-cases, ℕ, ◌<◌, ◌≡◌, refl, List, [], ◌∷◌, none, some, ◌==◌, if◌then◌else◌, arith,
}
use dracd.Glue.{
  Refs, ClientCtx, find, store, remove, alloc_drac_client_ctx, free_drac_client_ctx, get_drac_ctx,
}

find-store :
    (id other d : ℕ) (t : List (ℕ × ℕ))
    → find other (store id d t) ≡ (if id == other then some d else find other t)
unfolding find store
find-store id other d [] = refl
find-store id other d ((i, e) ∷ t) = ground (arith, find-store id other d t)

find-remove :
    (id other : ℕ) (t : List (ℕ × ℕ))
    → find other (remove id t) ≡ (if id == other then none else find other t)
unfolding find remove
find-remove id other [] = ground arith
find-remove id other ((i, e) ∷ t) = ground (arith, find-remove id other t)

-- The contexts but those with the id of one.
abbrev pub without : ClientCtx → List (ClientCtx × ℕ) → List (ClientCtx × ℕ)
without c [] = []
without c ((d, drac) ∷ alive) =
    if d.client_data == c.client_data then without c alive else (d, drac) ∷ without c alive

-- Some allocations and frees, with the contexts that are alive and their sessions.
pub data Alive : Refs → List (ClientCtx × ℕ) → Type 0 where
  fresh : {r : Refs} → r.table ≡ [] → Alive r []
  allocated :
      {r : Refs} {alive : List (ClientCtx × ℕ)} (drac kind : ℕ)
      → Alive r alive
      → Alive
          (alloc_drac_client_ctx r drac kind).0
          (((alloc_drac_client_ctx r drac kind).1, drac) ∷ alive)
  freed :
      {r : Refs} {alive : List (ClientCtx × ℕ)} (c : ClientCtx)
      → Alive r alive
      → Alive (free_drac_client_ctx r c) (without c alive)

-- Each context leads to its session, and its id was handed out before.
abbrev pub Resolves : Refs → List (ClientCtx × ℕ) → Type 0
Resolves r [] = Unit
Resolves r ((c, drac) ∷ alive) =
    (get_drac_ctx r c ≡ some drac) × (c.client_data < r.next_id) × Resolves r alive

alloc-Resolves :
    (r : Refs) (drac kind : ℕ) (alive : List (ClientCtx × ℕ))
    → Resolves r alive
    → Resolves (alloc_drac_client_ctx r drac kind).0 alive
unfolding alloc_drac_client_ctx get_drac_ctx
alloc-Resolves r drac kind [] h = tt
alloc-Resolves r drac kind ((c, d) ∷ alive) h = (
  ground (arith, find-store r.next_id c.client_data drac r.table),
  omega arith,
  alloc-Resolves r drac kind alive h.2,
)

without-Resolves :
    (r : Refs) (c : ClientCtx) (alive : List (ClientCtx × ℕ))
    → Resolves r alive
    → Resolves (free_drac_client_ctx r c) (without c alive)
unfolding free_drac_client_ctx get_drac_ctx
without-Resolves r c [] h = tt
without-Resolves r c ((d, drac) ∷ alive) h = elim (Bool-cases (d.client_data == c.client_data)) [
  | inl same ↦ rw same (without-Resolves r c alive h.2)
  | inr apart ↦ rw apart (
    ground (arith, find-remove c.client_data d.client_data r.table),
    h.1,
    without-Resolves r c alive h.2,
  )
]

allocated-Resolves :
    (r : Refs) (drac kind : ℕ) (alive : List (ClientCtx × ℕ))
    → Resolves r alive
    → Resolves
        (alloc_drac_client_ctx r drac kind).0
        (((alloc_drac_client_ctx r drac kind).1, drac) ∷ alive)
unfolding alloc_drac_client_ctx get_drac_ctx
allocated-Resolves r drac kind alive h = (
  ground (arith, find-store r.next_id r.next_id drac r.table),
  omega arith,
  alloc-Resolves r drac kind alive h,
)

-- After any allocations and frees, each context that is alive leads back to the session it was
-- allocated for, and the ids are below the next one.
pub Alive-Resolves : {r : Refs} {alive : List (ClientCtx × ℕ)} → Alive r alive → Resolves r alive
Alive-Resolves (fresh e) = tt
Alive-Resolves (allocated {r} {alive} drac kind h) =
    allocated-Resolves r drac kind alive (Alive-Resolves h)
Alive-Resolves (freed {r} {alive} c h) = without-Resolves r c alive (Alive-Resolves h)

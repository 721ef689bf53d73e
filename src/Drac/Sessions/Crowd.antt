-- ===== src/Drac/Sessions/Crowd.antt =====
-- Those who are in a session, whatever the order in which they have come and gone.
use dracd.Common.{
  ◌++◌, ◌≤◌, ◌↔◌, length, count-append, ℕ, zero, suc, ◌+◌, ◌≡◌, refl, ap, ap₂, List, [], ◌∷◌,
  Option, none, some, true, ℤ, pos, negsuc, succ_ℤ, pred_ℤ, pos_part, neg_part, leb, leb_ℤ, count,
  one, arith,
}
use dracd.Common.Unordered.{
  Unordered, unordered, IsReordering-unordered, unordered-IsReordering, IsReordering,
}
use dracd.Drac.Sessions.{DracCtx, joined, left, has_client, remove_client, is_unused}

-- Someone comes to the session, or goes: a client, or a request that is not one.
pub data Visit : Type 0 where
  comes goes : Option ℕ → Visit

abbrev pub visited : Visit → DracCtx → DracCtx
visited (comes who) c = joined who c
visited (goes who) c = left who c

unfoldable pub visited_all : List Visit → DracCtx → DracCtx
visited_all [] c = c
visited_all (v ∷ vs) c = visited_all vs (visited v c)

-- A client goes only if it is there.
abbrev pub IsFair : List Visit → DracCtx → Type 0
IsFair [] c = Unit
IsFair (comes who ∷ vs) c = IsFair vs (joined who c)
IsFair (goes none ∷ vs) c = IsFair vs (left none c)
IsFair (goes (some client) ∷ vs) c =
    (has_client client c.vnc_clients ≡ true) × IsFair vs (left (some client) c)

abbrev pub comers : List Visit → List ℕ
comers [] = []
comers (comes (some client) ∷ vs) = client ∷ comers vs
comers (_ ∷ vs) = comers vs

abbrev pub goers : List Visit → List ℕ
goers [] = []
goers (goes (some client) ∷ vs) = client ∷ goers vs
goers (_ ∷ vs) = goers vs

abbrev pub requests_come : List Visit → ℕ
requests_come [] = 0
requests_come (comes none ∷ vs) = suc (requests_come vs)
requests_come (_ ∷ vs) = requests_come vs

abbrev pub requests_go : List Visit → ℕ
requests_go [] = 0
requests_go (goes none ∷ vs) = suc (requests_go vs)
requests_go (_ ∷ vs) = requests_go vs

-- The same clients come, the same go, and as many requests.
pub record SameVisits (vs ws : List Visit) : Type 0 where
  pub come : unordered (comers vs) ≡ unordered (comers ws)
  pub go : unordered (goers vs) ≡ unordered (goers ws)
  pub ask : requests_come vs ≡ requests_come ws
  pub answered : requests_go vs ≡ requests_go ws

-- The clients up to order, and the count of the requests.
abbrev pub crowd : DracCtx → Unordered × ℤ
crowd c = (unordered c.vnc_clients, c.other_client_count)

count-remove_client :
    (client a : ℕ) (vs : List ℕ)
    → has_client client vs ≡ true
    → one client a + count a (remove_client client vs) ≡ count a vs
unfolding has_client remove_client
count-remove_client client a [] h = absurd (cc)
count-remove_client client a (v ∷ vs) h = ground (arith, count-remove_client client a vs)

count-visited :
    (a : ℕ) (vs : List Visit) (c : DracCtx)
    → IsFair vs c
    → count a (visited_all vs c).vnc_clients + count a (goers vs)
      ≡ count a c.vnc_clients + count a (comers vs)
unfolding visited_all
count-visited a [] c h = refl
count-visited a (comes none ∷ vs) c h = count-visited a vs (joined none c) h
count-visited a (comes (some v) ∷ vs) c h =
    omega (arith, count-visited a vs (joined (some v) c) h, count-append a c.vnc_clients (v ∷ []))
count-visited a (goes none ∷ vs) c h = count-visited a vs (left none c) h
count-visited a (goes (some v) ∷ vs) c h =
    omega
      (arith, count-visited a vs (left (some v) c) h.1, count-remove_client v a c.vnc_clients h.0)

parts-succ : (z : ℤ) → pos_part (succ_ℤ z) + neg_part z ≡ pos_part z + neg_part (succ_ℤ z) + 1
parts-succ (pos n) = omega arith
parts-succ (negsuc zero) = refl
parts-succ (negsuc (suc n)) = omega arith

parts-pred : (z : ℤ) → pos_part (pred_ℤ z) + neg_part z + 1 ≡ pos_part z + neg_part (pred_ℤ z)
parts-pred (pos zero) = refl
parts-pred (pos (suc n)) = omega arith
parts-pred (negsuc n) = omega arith

parts-ext : (y z : ℤ) → pos_part y + neg_part z ≡ pos_part z + neg_part y → y ≡ z
parts-ext (pos n) (pos m) e = ap pos (omega (arith, e))
parts-ext (pos n) (negsuc m) e = absurd (omega (arith, e))
parts-ext (negsuc n) (pos m) e = absurd (omega (arith, e))
parts-ext (negsuc n) (negsuc m) e = ap negsuc (omega (arith, e))

-- As many more as have come, and as many fewer as have gone.
requests-visited :
    (vs : List Visit) (c : DracCtx)
    → let z : ℤ = (visited_all vs c).other_client_count in
      pos_part z + neg_part c.other_client_count + requests_go vs
      ≡ pos_part c.other_client_count + neg_part z + requests_come vs
unfolding visited_all
requests-visited [] c = omega arith
requests-visited (comes none ∷ vs) c =
    omega (arith, requests-visited vs (joined none c), parts-succ c.other_client_count)
requests-visited (comes (some v) ∷ vs) c = requests-visited vs (joined (some v) c)
requests-visited (goes none ∷ vs) c =
    omega (arith, requests-visited vs (left none c), parts-pred c.other_client_count)
requests-visited (goes (some v) ∷ vs) c = requests-visited vs (left (some v) c)

empty_of : (vs : List ℕ) → ((a : ℕ) → count a vs ≡ 0) → leb (length vs) 0 ≡ true
empty_of [] h = refl
empty_of (v ∷ vs) h = absurd (ground (arith, h v))

no_clients : (vs : List ℕ) → leb (length vs) 0 ≡ true → (a : ℕ) → count a vs ≡ 0
no_clients [] h a = refl
no_clients (v ∷ vs) h a = absurd (ground arith)

none_asks : (z : ℤ) → leb_ℤ z (pos 0) ≡ true → pos_part z ≡ 0
none_asks (pos n) h = ground arith
none_asks (negsuc n) h = refl

asks_none : (z : ℤ) → pos_part z ≤ neg_part z → leb_ℤ z (pos 0) ≡ true
asks_none (pos n) h = ground arith
asks_none (negsuc n) h = ground arith

-- All clients of the session have gone, those that were there and those that have come, and so have as many requests.
abbrev pub AllGone : List Visit → DracCtx → Type 0
AllGone vs c =
    IsReordering (goers vs) (c.vnc_clients ++ comers vs)
    × (pos_part c.other_client_count + requests_come vs
        ≤ neg_part c.other_client_count + requests_go vs)

gone-is_unused :
    (vs : List Visit) (c : DracCtx)
    → IsFair vs c
    → AllGone vs c
    → is_unused (visited_all vs c) ≡ true
gone-is_unused vs c f (clients, requests) =
    let d : DracCtx = visited_all vs c in
    let left_none : leb (length d.vnc_clients) 0 ≡ true = empty_of d.vnc_clients (λ a.
      omega (arith, count-visited a vs c f, clients a, count-append a c.vnc_clients (comers vs))) in
    let asked : leb_ℤ d.other_client_count (pos 0) ≡ true =
      asks_none d.other_client_count (omega (arith, requests-visited vs c, requests)) in
    ground (arith, left_none, asked)

is_unused-gone :
    (vs : List Visit) (c : DracCtx)
    → IsFair vs c
    → is_unused (visited_all vs c) ≡ true
    → AllGone vs c
is_unused-gone vs c f h =
    let d : DracCtx = visited_all vs c in
    let left_none : leb (length d.vnc_clients) 0 ≡ true = ground arith in
    let asked : leb_ℤ d.other_client_count (pos 0) ≡ true = ground arith in
    (
      λ a. omega (
        arith,
        count-visited a vs c f,
        no_clients d.vnc_clients left_none a,
        count-append a c.vnc_clients (comers vs),
      ),
      omega (arith, requests-visited vs c, none_asks d.other_client_count asked),
    )

-- However clients and requests have come to a session and gone from it, as long as each client goes only while it is
-- there: its handler finds it unused exactly if all clients have gone that were there or have come, and at least as many
-- requests as were counted or have come. And if in another order the same ones have come and the same ones have gone, the
-- same clients are in the session, and as many requests are counted.
pub visited_all-SameVisits :
    (c : DracCtx) (vs ws : List Visit)
    → IsFair vs c
    → IsFair ws c
    → SameVisits vs ws
    → ((is_unused (visited_all vs c) ≡ true) ↔ AllGone vs c)
      × (crowd (visited_all vs c) ≡ crowd (visited_all ws c))
visited_all-SameVisits c vs ws f g h =
    let same : IsReordering (visited_all vs c).vnc_clients (visited_all ws c).vnc_clients = λ a.
      omega (
        arith,
        count-visited a vs c f,
        count-visited a ws c g,
        IsReordering-unordered h.come a,
        IsReordering-unordered h.go a,
      ) in
    let asked : (visited_all vs c).other_client_count ≡ (visited_all ws c).other_client_count =
      parts-ext _ _
        (omega (arith, requests-visited vs c, requests-visited ws c, h.ask, h.answered)) in
    (
      (is_unused-gone vs c f, gone-is_unused vs c f),
      ap₂ (λ (b : Unordered) (z : ℤ). (b, z)) (unordered-IsReordering same) asked,
    )

-- ===== src/Drac/Sessions/Leaving.antt =====
-- To leave a session undoes joining it.
use dracd.Common.{
  ap₂, negsuc, ℕ, zero, suc, ◌≡◌, refl, ap, ◌∙◌, List, [], ◌∷◌, ◌++◌, Option, none, some, true,
  false, ℤ, pos, succ_ℤ, pred_ℤ, get_elem?, modify, get_elem?-modify, arith,
}
use dracd.Drac.Sessions.{
  DracCtx, Server, Effect, notifies, closes, joined, join, left, leave, teardown_drac_request,
  remove_client, has_client, closing, teardown_drac_client,
}

modify-modify :
    {A : Type 0} (xs : List A) (i : ℕ) (f g : A → A)
    → modify (modify xs i f) i g ≡ modify xs i (λ x. g (f x))
modify-modify [] i f g = refl
modify-modify (x ∷ xs) zero f g = refl
modify-modify (x ∷ xs) (suc i) f g = ap (◌∷◌ x) (modify-modify xs i f g)

modify_same :
    {A : Type 0} (xs : List A) (i : ℕ) (f : A → A)
    → ((x : A) → get_elem? xs i ≡ some x → f x ≡ x)
    → modify xs i f ≡ xs
modify_same [] i f h = refl
modify_same (x ∷ xs) zero f h = ap (λ y. y ∷ xs) (h x refl)
modify_same (x ∷ xs) (suc i) f h = ap (◌∷◌ x) (modify_same xs i f h)

remove_client-append_end :
    (client : ℕ) (vs : List ℕ)
    → has_client client vs ≡ false
    → remove_client client (vs ++ client ∷ []) ≡ vs
unfolding remove_client has_client
remove_client-append_end client [] h = ground arith
remove_client-append_end client (v ∷ vs) h = ground (arith, remove_client-append_end client vs)

has_client-append_end : (client : ℕ) (vs : List ℕ) → has_client client (vs ++ client ∷ []) ≡ true
unfolding has_client
has_client-append_end client [] = ground arith
has_client-append_end client (v ∷ vs) = ground (arith, has_client-append_end client vs)

pred-succ : (z : ℤ) → pred_ℤ (succ_ℤ z) ≡ z
pred-succ (pos n) = refl
pred-succ (negsuc zero) = refl
pred-succ (negsuc (suc n)) = refl

pub left-joined-none : (c : DracCtx) → left none (joined none c) ≡ c
left-joined-none c =
    ap (λ (z : ℤ). record c { other_client_count = z }) (pred-succ c.other_client_count)

left-joined-some :
    (client : ℕ) (c : DracCtx)
    → has_client client c.vnc_clients ≡ false
    → left (some client) (joined (some client) c) ≡ c
left-joined-some client c h =
    ap (λ (vs : List ℕ). record c { vnc_clients = vs })
      (remove_client-append_end client c.vnc_clients h)

pub leave-join :
    (s : Server) (id : ℕ) (client : Option ℕ)
    → ((c : DracCtx) → get_elem? s.contexts id ≡ some c → left client (joined client c) ≡ c)
    → leave (join s id client) id client ≡ s
leave-join s id client h =
    ap (λ (cs : List DracCtx). record s { contexts = cs })
      (modify-modify s.contexts id (joined client) (left client) ∙ modify_same s.contexts id _ h)

closing-joined :
    (s : Server) (id client : ℕ) (c : DracCtx)
    → get_elem? s.contexts id ≡ some c
    → closing (get_elem? (join s id (some client)).contexts id) client ≡ closes client ∷ []
closing-joined s id client c e =
    let found : get_elem? (modify s.contexts id (joined (some client))) id
        ≡ some (joined (some client) c) =
      ground (arith, get_elem?-modify s.contexts id id (joined (some client))) in
    rw (found, has_client-append_end client c.vnc_clients)

-- To join and to leave a session changes nothing on the server, for a request and for a client that
-- was not in the session; the client's video channel is closed, once, and the handler is signalled.
pub teardown-join :
    (s : Server) (id client : ℕ) (c : DracCtx)
    → get_elem? s.contexts id ≡ some c
    → has_client client c.vnc_clients ≡ false
    → (teardown_drac_request (join s id none) id ≡ (s, notifies id ∷ []))
      × (teardown_drac_client (join s id (some client)) id client
          ≡ (s, closes client ∷ notifies id ∷ []))
unfolding teardown_drac_request teardown_drac_client
teardown-join s id client c e h = (
  ap (λ (s' : Server). (s', notifies id ∷ [])) (leave-join s id none (λ c' _. left-joined-none c')),
  ap₂ (λ (s' : Server) (effects : List Effect). (s', effects ++ (notifies id ∷ [])))
      (leave-join s id (some client) λ c' e'. left-joined-some client c' (ground arith))
      (closing-joined s id client c e),
)

-- ===== src/Http/Listing.antt =====
-- The list of recent hosts on the connect page.
use dracd.Common.{
  subst, ℕ, zero, suc, ◌+◌, ◌≡◌, refl, List, [], ◌∷◌, some, true, Text, lookup, get_elem?, arith,
  ◌↔◌, Option-cases, inl, inr,
}
use dracd.Drac.Recents.{RecentDracEntry}
use dracd.Drac.Sessions.{Server}
use dracd.Http.{is_connected, listing}

is_connected_iff :
    (s : Server) (host : Text)
    → (is_connected s host ≡ true) ↔ ((id : ℕ) × (lookup host s.dracmap ≡ some id))
is_connected_iff s host = elim (Option-cases (lookup host s.dracmap)) [
  | inl e ↦ (λ q. absurd (ground arith), λ (id, q). absurd (cc))
  | inr (id, e) ↦ (λ _. (id, e), λ _. ground arith)
]

-- An entry of the page, and the one of recentDracs that it shows.
pub record Lists (s : Server) (format : ℕ → Text) (i : ℕ) (de shown : RecentDracEntry)
    : Type 0 where
  pub numbered : shown.id ≡ i
  pub connected : (shown.connected ≡ true) ↔ ((id : ℕ) × (lookup de.host s.dracmap ≡ some id))
  pub same_host : shown.host ≡ de.host
  pub formatted : shown.formatted_time ≡ format de.start_time

listing_from :
    (s : Server) (format : ℕ → Text) (k i : ℕ) (l : List RecentDracEntry) (de : RecentDracEntry)
    → get_elem? l i ≡ some de
    → (shown : RecentDracEntry) × (get_elem? (listing s format k l) i ≡ some shown)
      × Lists s format (k + i) de shown
unfolding listing
listing_from s format k i [] de e = absurd (cc)
listing_from s format k zero (x ∷ l) de e =
    let same : x ≡ de = ground arith in
    let shown : RecentDracEntry = record x {
      connected = is_connected s x.host;
      formatted_time = format x.start_time;
      id = k;
    } in
    (
      shown,
      refl,
      subst (λ (y : RecentDracEntry). Lists s format (k + 0) y shown) same
          (record {
            numbered = omega arith;
            connected = is_connected_iff s x.host;
            same_host = refl;
            formatted = refl;
          }),
    )
listing_from s format k (suc i) (x ∷ l) de e =
    let (shown, there, lists) = listing_from s format (suc k) i l de e in
    let number : suc k + i ≡ k + suc i = omega arith in
    (shown, there, subst (λ (n : ℕ). Lists s format n de shown) number lists)

-- The entry i of recentDracs is the entry i of the page, with that number; it is marked as connected
-- exactly when its host has a session.
listing_lem :
    (s : Server) (format : ℕ → Text) (i : ℕ) (de : RecentDracEntry)
    → get_elem? s.recent_dracs i ≡ some de
    → (shown : RecentDracEntry) × (get_elem? (listing s format 0 s.recent_dracs) i ≡ some shown)
      × Lists s format i de shown
listing_lem s format i de e =
    let (shown, there, lists) = listing_from s format 0 i s.recent_dracs de e in
    let number : 0 + i ≡ i = omega arith in
    (shown, there, subst (λ (n : ℕ). Lists s format n de shown) number lists)

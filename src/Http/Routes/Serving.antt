-- ===== src/Http/Routes/Serving.antt =====
-- Which handler serves a path.
use dracd.Common.{
  subst, Option-cases, All, map, get_elem?, ℕ, suc, zero, ◌+◌, ◌-◌, ◌≡◌, refl, ap, ◌∙◌, sym, List,
  [], ◌∷◌, ◌++◌, Option, none, some, Bool, true, false, Text, length, length-append, take-length,
  drop-length, leb, same_bytes, same_bytes_self, same_bytes_iff, if◌then◌else◌, arith, Bool-cases,
  inl, inr,
}
use dracd.Common.Texts.{has_prefix}
use dracd.Http.Routes.{
  Template, exactly, around_host, Handler, asset, Route, routes, asset_paths, has_suffix,
  has_newline, between, choose, Router, IsMux,
}

-- The rule of the router, computed.
unfoldable pub matches : Template → Text → Option Text
unfolding between same_bytes
matches (exactly t) path = if same_bytes t path then some [] else none
matches (around_host prefix suffix) path = between prefix suffix path

unfoldable pub first_match : List Route → Text → Option (Handler × Text)
unfolding matches
first_match [] path = none
first_match ((t, h) ∷ rest) path =
    let later = first_match rest path in choose (matches t path) h later

-- A handler that is found is the handler of a route.
pub first_match-All :
    (P : Handler → Type 0) (l : List Route) (path host : Text) (h : Handler)
    → All (λ (x : Route). P x.1) l
    → first_match l path ≡ some (h, host)
    → P h
unfolding first_match
first_match-All P [] path host h all e = absurd (cc)
first_match-All P ((t, k) ∷ rest) path host h all e = elim (Option-cases (matches t path)) [
  | inl missed ↦ first_match-All P rest path host h all.1 (ground arith)
  | inr (found, e') ↦ let same : k ≡ h = ground arith in subst P same all.0
]

module _ (r : Router) (mux : IsMux r) (path : Text) (line : has_newline path ≡ false) where
  matches_lem : (t : Template) → r.matches t path ≡ matches t path
  unfolding matches
  matches_lem (exactly t) = mux.exact t path
  matches_lem (around_host prefix suffix) = mux.around prefix suffix path line

  pub serve-first_match : (l : List Route) → r.serve l path ≡ first_match l path
  unfolding first_match
  serve-first_match [] = mux.none_left path
  serve-first_match ((t, h) ∷ rest) =
      let step : r.serve ((t, h) ∷ rest) path ≡ choose (r.matches t path) h (r.serve rest path) =
        mux.first t h rest path in
      step
      ∙ ap (λ o. choose o h (r.serve rest path)) (matches_lem t)
      ∙ ap (choose (matches t path) h) (serve-first_match rest)

has_suffix-append : (a b : Text) → has_suffix b (a ++ b) ≡ true
has_suffix-append a b =
    let e : length (a ++ b) - length b ≡ length a = omega (arith, length-append a b) in
    let small : leb (length b) (length (a ++ b)) ≡ true = ground (arith, length-append a b) in
    rw (small, e, drop-length a b, same_bytes_self b) refl

has_prefix-append_self : (a b : Text) → has_prefix a (a ++ b) ≡ true
unfolding has_prefix
has_prefix-append_self [] b = refl
has_prefix-append_self (c ∷ a) b = ground (arith, has_prefix-append_self a b)

-- A host between a prefix and a suffix is found.
pub between-append :
    (prefix host suffix : Text) → between prefix suffix (prefix ++ (host ++ suffix)) ≡ some host
unfolding between
between-append prefix host suffix =
    let e : length (host ++ suffix) - length suffix ≡ length host =
      omega (arith, length-append host suffix) in
    rw
      (
        has_prefix-append_self prefix (host ++ suffix),
        drop-length prefix (host ++ suffix),
        has_suffix-append host suffix,
        e,
        take-length host suffix,
      )
      refl

-- A text that ends otherwise is another text.
pub same_bytes-append :
    (t a suffix : Text) → has_suffix suffix t ≡ false → same_bytes t (a ++ suffix) ≡ false
same_bytes-append t a suffix h = elim (Bool-cases (same_bytes t (a ++ suffix))) [
  | inl same ↦
      let e : has_suffix suffix t ≡ true =
        ap (has_suffix suffix) ((same_bytes_iff t (a ++ suffix)).0 same)
        ∙ has_suffix-append a suffix in
      absurd (cc)
  | inr apart ↦ apart
]

pub has_suffix_other :
    (a b c : Text) → length b ≡ length c → same_bytes c b ≡ false → has_suffix b (a ++ c) ≡ false
has_suffix_other a b c l h =
    let e : length (a ++ c) - length b ≡ length a = omega (arith, length-append a c) in
    rw (e, drop-length a c, h) (ground arith)

pub has_newline-append :
    (a b : Text) → has_newline a ≡ false → has_newline b ≡ false → has_newline (a ++ b) ≡ false
has_newline-append [] b h k = k
has_newline-append (c ∷ a) b h k = ground (arith, has_newline-append a b)

-- Whether a path has more than one line, and what the rule finds for it.
abbrev found : Bool → Text → Bool × Option (Handler × Text)
found gif_support path = (has_newline path, first_match (routes gif_support) path)

-- What is to be found for assets, from the number i on.
abbrev wanted : ℕ → List Text → List (Bool × Option (Handler × Text))
wanted i [] = []
wanted i (path ∷ paths) = (false, some (asset i, [])) ∷ wanted (suc i) paths

map-found : (gif_support : Bool) → map (found gif_support) asset_paths ≡ wanted 0 asset_paths
unfolding first_match
map-found true = refl
map-found false = refl

get_elem?-map :
    (gif_support : Bool) (paths : List Text) (i : ℕ) (path : Text)
    → get_elem? paths i ≡ some path
    → get_elem? (map (found gif_support) paths) i ≡ some (found gif_support path)
get_elem?-map g [] i path e = absurd (cc)
get_elem?-map g (p ∷ paths) zero path e =
    let same : p ≡ path = ground arith in ap (λ t. some (found g t)) same
get_elem?-map g (p ∷ paths) (suc i) path e = get_elem?-map g paths i path e

get_elem?-wanted :
    (k i : ℕ) (paths : List Text) (path : Text)
    → get_elem? paths i ≡ some path
    → get_elem? (wanted k paths) i ≡ some (false, some (asset (k + i), []))
get_elem?-wanted k i [] path e = absurd (cc)
get_elem?-wanted k zero (p ∷ paths) path e =
    let number : k ≡ k + 0 = omega arith in ap (λ n. some (false, some (asset n, []))) number
get_elem?-wanted k (suc i) (p ∷ paths) path e =
    let number : suc k + i ≡ k + suc i = omega arith in
    get_elem?-wanted (suc k) i paths path e ∙ ap (λ n. some (false, some (asset n, []))) number

found_asset :
    (gif_support : Bool) (i : ℕ) (path : Text)
    → get_elem? asset_paths i ≡ some path
    → found gif_support path ≡ (false, some (asset i, []))
found_asset g i path e =
    let all_found = ap (λ l. get_elem? l i) (map-found g) in
    let mapped = get_elem?-map g asset_paths i path e in
    let due = get_elem?-wanted 0 i asset_paths path e in
    let number : 0 + i ≡ i = omega arith in
    ap (λ o. elim o [ none ↦ found g path | some x ↦ x ]) (sym mapped ∙ all_found ∙ due)
    ∙ ap (λ (n : ℕ). (false, some (asset n, []))) number

module _ (r : Router) (mux : IsMux r) (gif_support : Bool) where
  -- With a router that does what is documented, and with or without GIF support, each of the assets is served
  -- at its path by its own handler, whichever routes stand in front.
  pub serve_asset :
      (i : ℕ) (path : Text)
      → get_elem? asset_paths i ≡ some path
      → r.serve (routes gif_support) path ≡ some (asset i, [])
  serve_asset i path e =
      let rule = found_asset gif_support i path e in
      serve-first_match r mux path (ap (λ x. x.0) rule) (routes gif_support) ∙ ap (λ x. x.1) rule

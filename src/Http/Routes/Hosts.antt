-- ===== src/Http/Routes/Hosts.antt =====
-- Which handler serves the paths that hold a host.
use dracd.Common.{
  arith, sym, ◌≢◌, All, [], ◌≡◌, refl, ◌∙◌, subst, ◌++◌, some, Bool, true, false, Text, append-nil,
}
use dracd.Http.Routes.{
  Route, gif, Handler, status, websockify, png, routes, has_newline, between, Router, IsMux,
}
use dracd.Gif.Disabled.{gif_support_enabled}
use dracd.Common.Texts.{codes, has_prefix}
use dracd.Http.Routes.Serving.{
  first_match, first_match-All, serve-first_match, between-append, same_bytes-append,
  has_suffix_other, has_newline-append,
}

between_end : (prefix host : Text) → between prefix [] (prefix ++ host) ≡ some host
between_end prefix host =
    subst (λ (t : Text). between prefix [] (prefix ++ t) ≡ some host) (append-nil host)
      (between-append prefix host [])

first_match-status :
    (gif_support : Bool) (host : Text)
    → first_match (routes gif_support) (codes "/status/" ++ host) ≡ some (status, host)
unfolding first_match
first_match-status true host = rw (between_end (codes "/status/") host) refl
first_match-status false host = rw (between_end (codes "/status/") host) refl

first_match-websockify :
    (gif_support : Bool) (host : Text)
    → first_match (routes gif_support) (codes "/websockify/" ++ host) ≡ some (websockify, host)
unfolding first_match
first_match-websockify true host = rw (between_end (codes "/websockify/") host) refl
first_match-websockify false host = rw (between_end (codes "/websockify/") host) refl

first_match-png :
    (gif_support : Bool) (host : Text)
    → let path : Text = codes "/" ++ (host ++ codes ".png") in
      has_prefix (codes "/status/") path ≡ false
      → has_prefix (codes "/websockify/") path ≡ false
      → first_match (routes gif_support) path ≡ some (png, host)
unfolding first_match between
first_match-png true host s w =
    let a = same_bytes-append (codes "/") (codes "/" ++ host) (codes ".png") refl in
    let b = same_bytes-append (codes "/killsession") (codes "/" ++ host) (codes ".png") refl in
    let c = has_suffix_other host (codes ".gif") (codes ".png") refl refl in
    rw (a, b, s, w, c, between-append (codes "/") host (codes ".png")) refl
first_match-png false host s w =
    let a = same_bytes-append (codes "/") (codes "/" ++ host) (codes ".png") refl in
    let b = same_bytes-append (codes "/killsession") (codes "/" ++ host) (codes ".png") refl in
    rw (a, b, s, w, between-append (codes "/") host (codes ".png")) refl

first_match-gif :
    (host : Text)
    → let path : Text = codes "/" ++ (host ++ codes ".gif") in
      has_prefix (codes "/status/") path ≡ false
      → has_prefix (codes "/websockify/") path ≡ false
      → first_match (routes true) path ≡ some (gif, host)
unfolding first_match between
first_match-gif host s w =
    let a = same_bytes-append (codes "/") (codes "/" ++ host) (codes ".gif") refl in
    let b = same_bytes-append (codes "/killsession") (codes "/" ++ host) (codes ".gif") refl in
    rw (a, b, s, w, between-append (codes "/") host (codes ".gif")) refl

abbrev is_gif : Handler → Bool
is_gif gif = true
is_gif _ = false

routes-All : All (λ (x : Route). is_gif x.1 ≡ false) (routes gif_support_enabled)
routes-All = ground arith

module _ (r : Router) (mux : IsMux r) (gif_support : Bool) where
  -- With a router that does what is documented, and with any host on one line behind them, /status/ and
  -- /websockify/ lead to the handlers of these names, with that host.
  serve_status :
      (host : Text)
      → has_newline host ≡ false
      → (r.serve (routes gif_support) (codes "/status/" ++ host) ≡ some (status, host))
        × (r.serve (routes gif_support) (codes "/websockify/" ++ host) ≡ some (websockify, host))
  serve_status host line = (
    serve-first_match r mux (codes "/status/" ++ host)
          (has_newline-append (codes "/status/") host refl line) (routes gif_support)
        ∙ first_match-status gif_support host,
    serve-first_match r mux (codes "/websockify/" ++ host)
          (has_newline-append (codes "/websockify/") host refl line) (routes gif_support)
        ∙ first_match-websockify gif_support host,
  )

  -- With a router that does what is documented, a host on one line with .png behind it leads to the PNG
  -- handler, with that host, unless the path begins with /status/ or /websockify/.
  serve_png :
      (host : Text)
      → has_newline host ≡ false
      → has_prefix (codes "/status/") (codes "/" ++ (host ++ codes ".png")) ≡ false
      → has_prefix (codes "/websockify/") (codes "/" ++ (host ++ codes ".png")) ≡ false
      → r.serve (routes gif_support) (codes "/" ++ (host ++ codes ".png")) ≡ some (png, host)
  serve_png host line s w =
      serve-first_match r mux (codes "/" ++ (host ++ codes ".png"))
        (has_newline-append (codes "/") (host ++ codes ".png") refl
          (has_newline-append host (codes ".png") line refl))
        (routes gif_support)
      ∙ first_match-png gif_support host s w

-- With a router that does what is documented: in the build with GIF support, a host on one line with .gif
-- behind it leads to the GIF handler, with that host, unless the path begins with /status/ or /websockify/;
-- in the build without, no path on one line leads to the GIF handler.
serve_gif :
    (r : Router) (mux : IsMux r) (host path found : Text)
    → has_newline host ≡ false
    → has_newline path ≡ false
    → has_prefix (codes "/status/") (codes "/" ++ (host ++ codes ".gif")) ≡ false
    → has_prefix (codes "/websockify/") (codes "/" ++ (host ++ codes ".gif")) ≡ false
    → (r.serve (routes true) (codes "/" ++ (host ++ codes ".gif")) ≡ some (gif, host))
      × (r.serve (routes gif_support_enabled) path ≢ some (gif, found))
serve_gif r mux host path found line one_line s w = (
  serve-first_match r mux (codes "/" ++ (host ++ codes ".gif"))
        (has_newline-append (codes "/") (host ++ codes ".gif") refl
          (has_newline-append host (codes ".gif") line refl))
        (routes true)
      ∙ first_match-gif host s w,
  λ e.
      let no_gif =
        first_match-All (λ h. is_gif h ≡ false) (routes gif_support_enabled) path found gif
          routes-All
          (sym (serve-first_match r mux path one_line (routes gif_support_enabled)) ∙ e) in
      absurd (cc),
)

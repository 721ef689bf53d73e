-- ===== src/Detect/Login.antt =====
-- The requests that getDracType makes, whatever the controller answers.
use dracd.Detect.{
  eq_ℤ, drac4, drac5, unknown, identify, Request, get, post_form, Browser, address, console4,
  console5, session, connect, with_root, get_drac_type,
}
use dracd.Common.{
  inr, inl, Bool, ◌⊎◌, ◌≡◌, List, [], ◌∷◌, some, Text, ℤ, panics, unimplemented, if◌then◌else◌,
}
use dracd.Common.Texts.{codes}

abbrev pub root : Text → Request
root host = get (address host "/")

-- The login of a DRAC 5, its console page and its logout; and those of a DRAC 4.
abbrev login5 : (host user password : Text) → Request
login5 host user password =
    post_form (address host "/cgi-bin/webcgi/login")
      ((codes "user", user) ∷ (codes "password", password) ∷ [])

abbrev fetch5 : Text → Request
fetch5 host = get (address host "/cgi-bin/webcgi/vkvm?state=1")

abbrev logout5 : Text → Request
logout5 host = post_form (address host "/cgi-bin/webcgi/logout") []

abbrev login4 : (host user password : Text) → Request
login4 host user password =
    post_form (address host "/cgi/login") ((codes "user", user) ∷ (codes "hash", password) ∷ [])

abbrev fetch4 : Text → Request
fetch4 host = get (address host "/cgi/vkvm")

abbrev logout4 : Text → Request
logout4 host = post_form (address host "/cgi/logout") []

pub connect_kinds :
    (browse : Browser) (made : List Request) (host user password : Text) (kind : ℤ)
    → (kind ≡ drac5
        → connect browse made host user password kind
          ≡ session browse made (login5 host user password) (fetch5 host) (logout5 host) console5)
      × (kind ≡ drac4
          → connect browse made host user password kind
            ≡ session browse made (login4 host user password) (fetch4 host) (logout4 host) console4)
      × (kind ≡ unknown
          → connect browse made host user password kind ≡ (panics unimplemented, made))
unfolding connect
connect_kinds browse made host user password kind = (λ e. rw e, λ e. rw e, λ e. rw e)

abbrev is_drac5 : ℤ → Bool
is_drac5 kind = eq_ℤ kind drac5

-- The three requests for a kind, 5 or 4.
abbrev pub login : ℤ → (host user password : Text) → Request
login kind host user password =
    if is_drac5 kind then login5 host user password else login4 host user password

abbrev pub fetch : ℤ → Text → Request
fetch kind host = if is_drac5 kind then fetch5 host else fetch4 host

abbrev pub logout : ℤ → Text → Request
logout kind host = if is_drac5 kind then logout5 host else logout4 host

connect_made :
    (browse : Browser) (host user password page : Text) (kind : ℤ)
    → (kind ≡ drac5) ⊎ (kind ≡ drac4)
    → browse (root host ∷ login kind host user password ∷ []) ≡ some page
    → (connect browse (root host ∷ []) host user password kind).1
      ≡ root host ∷ login kind host user password ∷ fetch kind host ∷ logout kind host ∷ []
unfolding connect session
connect_made browse host user password page kind (inl k) answered = rw k (rw (rw k at answered))
connect_made browse host user password page kind (inr k) answered = rw k (rw (rw k at answered))

-- A DRAC 4 or 5 that answers the login is asked for its console page and then logged out of, whatever it
-- answers and whether or not the page can be read.
get_drac_type_logs_out :
    (browse : Browser) (host user password body page : Text)
    → browse (root host ∷ []) ≡ some body
    → (identify body ≡ drac5) ⊎ (identify body ≡ drac4)
    → browse (root host ∷ login (identify body) host user password ∷ []) ≡ some page
    → (get_drac_type browse host user password).1
      ≡ root host
        ∷ login (identify body) host user password
        ∷ fetch (identify body) host
        ∷ logout (identify body) host
        ∷ []
unfolding get_drac_type with_root
get_drac_type_logs_out browse host user password body page root_page kind answered =
    rw (root_page, with_root)
      (connect_made browse host user password page (identify body) kind answered)

-- A host whose page shows none of the known kinds makes the detection panic.
get_drac_type-unknown :
    (browse : Browser) (host user password body : Text)
    → browse (root host ∷ []) ≡ some body
    → identify body ≡ unknown
    → get_drac_type browse host user password ≡ (panics unimplemented, root host ∷ [])
unfolding get_drac_type with_root
get_drac_type-unknown browse host user password body page kind =
    rw page ((connect_kinds browse (root host ∷ []) host user password (identify body)).2 kind)

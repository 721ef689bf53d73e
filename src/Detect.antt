-- ===== src/Detect.antt =====
-- dracDetect.go: what kind of controller answers at a host, and how to reach its console. The HTTP
-- client, with its cookies, is a parameter: what it answers may depend on all requests made so far.
pub mod Value
pub mod Login
pub mod Name
pub mod Reading
use Prim.Native.String.{String}
use dracd.Common.{
  ℕ, ◌+◌, List, [], ◌∷◌, ◌++◌, Option, none, some, Bool, ◌||◌, ◌&&◌, Text, ℤ, pos, negsuc, length,
  drop, leb_ℤ, if◌then◌else◌, ◌==◌, Outcome, ok, panics, unimplemented, slice_out_of_range, ◌>>=◌,
}
use dracd.Common.Texts.{codes, contains, index_of}
use dracd.Common.Atoi.{atoi, value_of}

abbrev pub drac4 : ℤ
drac4 = pos 4

abbrev pub drac5 : ℤ
drac5 = pos 5

abbrev drac6 : ℤ
drac6 = pos 6

abbrev drac7 : ℤ
drac7 = pos 7

abbrev drac8 : ℤ
drac8 = pos 8

abbrev pub unknown : ℤ
unknown = negsuc 0

-- `str[j] == '<' || str[j] == ';' || str[j] == '"'`
abbrev pub is_end : ℕ → Bool
is_end c = c == b'<' || (c == b';' || c == 34)

-- The loop over j.
pub until_end : Text → Text
until_end [] = []
until_end (c ∷ s) = let rest = until_end s in if is_end c then [] else c ∷ rest

-- `str[i:j]`, where `j` starts behind the byte at `i`: with no byte there, j is past the end.
slice_value : Text → Outcome Text
slice_value [] = panics slice_out_of_range
slice_value (c ∷ s) = ok (c ∷ until_end s)

value_at : Option ℕ → Text → Text → Outcome Text
value_at none str prefix = ok []
value_at (some i) str prefix = slice_value (drop (i + length prefix) str)

unfoldable pub get_value : Text → Text → Outcome Text
unfolding index_of value_at slice_value until_end
get_value str prefix = value_at (index_of prefix str) str prefix

-- The page at the root of the controller tells its kind.
unfoldable pub identify : Text → ℤ
unfolding index_of
identify body =
    if contains body (codes "iDrac8")
    then drac8
    else if contains body (codes "top.document.location.href = \"/index.html?console")
    then drac7
    else if contains body (codes "top.document.location.href = \"/sclogin")
    then drac6
    else if contains body (codes "top.document.location.replace(\"/cgi-bin/webcgi/index\");")
    then drac5
    else if contains body (codes "var s_oemProductName = \"DRAC 4\";")
    then drac4
    else unknown

-- A GET of an address, or a POST of a form.
pub data Request : Type 0 where
  get : Text → Request
  post_form : Text → List (Text × Text) → Request

-- What client.Do answers to the last of the requests made: a body, or an error.
abbrev pub Browser : Type 0
Browser = List Request → Option Text

-- The results of getDracType but the error.
pub record Console : Type 0 where
  pub session_user : Text
  pub session_password : Text
  pub drac_type : ℤ
  pub ctrl_port : ℤ
  pub video_port : ℤ

-- The console, none for an error, or a panic; and the requests that were made.
abbrev pub Detected : Type 0
Detected = Outcome (Option Console) × List Request

abbrev pub address : Text → String → Text
address host path = codes "https://" ++ (host ++ codes path)

-- The port that a page names.
abbrev pub port : Outcome Text → Outcome ℤ
port (ok s) = ok (value_of (atoi s))
port (panics p) = panics p

-- What the console page of a DRAC 5 gives.
pub console5 : Text → Outcome (Option Console)
console5 body = do
  session ← get_value body (codes "<property name=\"vKvmSessionId\" type=\"string\"><value>")
  ctrl ← port (get_value body (codes "<property name=\"KMPortNumber\" type=\"text\"><value>"))
  video ← port (get_value body (codes "<property name=\"VideoPortNumber\" type=\"text\"><value>"))
  ok (
      some (record {
        session_user = session;
        session_password = [];
        drac_type = drac5;
        ctrl_port = ctrl;
        video_port = video;
      }))

-- What the console page of a DRAC 4 gives.
pub console4 : Text → Outcome (Option Console)
console4 body = do
  number ← get_value body (codes "var nSessionNum = ")
  session ← get_value body (codes "var sSessionId = \"")
  ctrl ← port (get_value body (codes "var nPort = "))
  ok (
      some (record {
        session_user = number;
        session_password = session;
        drac_type = drac4;
        ctrl_port = ctrl;
        video_port = negsuc 0;
      }))

-- Log in, fetch the console page, and log out again at the return, also at one with an error or by a
-- panic: the deferred PostForm.
abbrev read_page : Option Text → (Text → Outcome (Option Console)) → Outcome (Option Console)
read_page none console = ok none
read_page (some page) console = console page

abbrev after_login :
    Option Text
    → Browser
    → List Request
    → Request
    → Request
    → (Text → Outcome (Option Console))
    → Detected
after_login none browse made fetch logout console = (ok none, made)
after_login (some _) browse made fetch logout console =
    let made' = made ++ fetch ∷ [] in (read_page (browse made') console, made' ++ logout ∷ [])

pub session :
    Browser
    → List Request
    → (login fetch logout : Request) → (Text → Outcome (Option Console))
    → Detected
session browse made login fetch logout console =
    let made' = made ++ login ∷ [] in after_login (browse made') browse made' fetch logout console

abbrev pub eq_ℤ : ℤ → ℤ → Bool
eq_ℤ a b = leb_ℤ a b && leb_ℤ b a

-- `switch` on the kind.
pub connect : Browser → List Request → (host user password : Text) → ℤ → Detected
connect browse made host user password kind =
    if leb_ℤ drac6 kind
    then (
      ok (
          some (record {
            session_user = user;
            session_password = password;
            drac_type = kind;
            ctrl_port = pos 5900;
            video_port = pos 5900;
          })),
      made,
    )
    else if eq_ℤ kind drac5
    then session browse made
        (post_form (address host "/cgi-bin/webcgi/login")
          ((codes "user", user) ∷ (codes "password", password) ∷ []))
        (get (address host "/cgi-bin/webcgi/vkvm?state=1"))
        (post_form (address host "/cgi-bin/webcgi/logout") []) console5
    else if eq_ℤ kind drac4
    then session browse made
        (post_form (address host "/cgi/login")
          ((codes "user", user) ∷ (codes "hash", password) ∷ []))
        (get (address host "/cgi/vkvm")) (post_form (address host "/cgi/logout") []) console4
    else (panics unimplemented, made)

with_root : Option Text → Browser → List Request → (host user password : Text) → Detected
with_root none browse made host user password = (ok none, made)
with_root (some body) browse made host user password =
    connect browse made host user password (identify body)

-- From the first request on.
unfoldable pub get_drac_type : Browser → (host user password : Text) → Detected
unfolding with_root connect session console5 console4 identify get_value
get_drac_type browse host user password =
    let made = get (address host "/") ∷ [] in with_root (browse made) browse made host user password

-- getDracType: `parses` says whether http.NewRequest takes an address; if not, nothing is asked.
pub detect : (Text → Bool) → Browser → (host user password : Text) → Detected
detect parses browse host user password =
    let found = get_drac_type browse host user password in
    if parses (address host "/") then found else (ok none, [])

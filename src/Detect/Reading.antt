-- ===== src/Detect/Reading.antt =====
-- What getDracType reads from the console page of a DRAC 4 or 5.
use dracd.Common.{
  if◌then◌else◌, ℕ, ◌^◌, ◌<◌, ◌≡◌, ◌≢◌, refl, sym, ap, ◌∙◌, List, [], ◌∷◌, ◌++◌, Option, some, true,
  false, Text, length, All, ℤ, pos, negsuc, Outcome, ok,
}
use dracd.Common.Atoi.{atoi, value_of}
use dracd.Common.Decimal.{decimal, format, atoi-format}
use dracd.Common.Texts.{codes, index_of}
use dracd.Detect.{
  eq_ℤ, is_end, get_value, identify, drac4, drac5, Browser, Request, Console, console4, console5,
  session, connect, with_root, get_drac_type,
}
use dracd.Detect.Login.{root, login, fetch, logout, connect_kinds}
use dracd.Detect.Value.{get_value-append}

-- A page shows a value behind a prefix, which stands there first: a byte or more, up to one of the end bytes.
pub record Names (page prefix value : Text) : Type 0 where
  pub before : Text
  pub after : Text
  pub ending : ℕ
  pub written : page ≡ before ++ (prefix ++ (value ++ ending ∷ after))
  pub leftmost : index_of prefix page ≡ some (length before)
  pub plain : All (λ c. is_end c ≡ false) value
  pub present : value ≢ []
  pub ends : is_end ending ≡ true

get_value-Names :
    (page prefix value : Text) → Names page prefix value → get_value page prefix ≡ ok value
get_value-Names page prefix [] h = absurd (h.present refl)
get_value-Names page prefix (c ∷ value) h =
    ap (λ p. get_value p prefix) h.written
    ∙ get_value-append h.before prefix value h.after c h.ending
        (sym (ap (index_of prefix) h.written) ∙ h.leftmost) h.plain h.ends

value_of-decimal : (n : ℕ) → n < 2 ^ 63 → value_of (atoi (decimal n)) ≡ pos n
unfolding format
value_of-decimal n small = ap value_of (atoi-format (pos n) small)

-- The console page that a controller of a kind shows, with a console that it describes.
pub data Describes (page : Text) : ℤ → Console → Type 0 where
  as_drac5 :
      (id : Text) (ctrl video : ℕ)
      → Names page (codes "<property name=\"vKvmSessionId\" type=\"string\"><value>") id
      → Names page (codes "<property name=\"KMPortNumber\" type=\"text\"><value>") (decimal ctrl)
      → Names page
          (codes "<property name=\"VideoPortNumber\" type=\"text\"><value>")
          (decimal video)
      → ctrl < 2 ^ 63
      → video < 2 ^ 63
      → Describes page drac5 (record {
        session_user = id;
        session_password = [];
        drac_type = drac5;
        ctrl_port = pos ctrl;
        video_port = pos video;
      })
  as_drac4 :
      (number id : Text) (ctrl : ℕ)
      → Names page (codes "var nSessionNum = ") number
      → Names page (codes "var sSessionId = \"") id
      → Names page (codes "var nPort = ") (decimal ctrl)
      → ctrl < 2 ^ 63
      → Describes page drac4 (record {
        session_user = number;
        session_password = id;
        drac_type = drac4;
        ctrl_port = pos ctrl;
        video_port = negsuc 0;
      })

-- The console page that a kind of controller has.
abbrev console_of : ℤ → Text → Outcome (Option Console)
console_of kind = if eq_ℤ kind drac5 then console5 else console4

console-Describes :
    (page : Text) (kind : ℤ) (c : Console)
    → Describes page kind c
    → console_of kind page ≡ ok (some c)
unfolding console5 console4
console-Describes page kind c (as_drac5 id ctrl video named sends shows small small') = rw (
  get_value-Names page _ _ named,
  get_value-Names page _ _ sends,
  get_value-Names page _ _ shows,
  value_of-decimal ctrl small,
  value_of-decimal video small',
)
console-Describes page kind c (as_drac4 number id ctrl counted named sends small) = rw (
  get_value-Names page _ _ counted,
  get_value-Names page _ _ named,
  get_value-Names page _ _ sends,
  value_of-decimal ctrl small,
)

session-some :
    (browse : Browser) (made : List Request) (login fetch logout : Request)
    (console : Text → Outcome (Option Console)) (answer page : Text) (c : Console)
    → browse (made ++ login ∷ []) ≡ some answer
    → browse (made ++ login ∷ [] ++ fetch ∷ []) ≡ some page
    → console page ≡ ok (some c)
    → session browse made login fetch logout console
      ≡ (ok (some c), made ++ login ∷ [] ++ fetch ∷ [] ++ logout ∷ [])
unfolding session
session-some browse made login fetch logout console answer page c a p e = rw (a, p, e)

-- A DRAC 4 or 5 that answers the login, and whose console page names its session, in bytes that are no end bytes, and
-- its ports, below 2^63 and in decimal, each where its prefix stands first, and each up to an end byte: getDracType
-- returns that session and these ports (-1 for the video port of a DRAC 4), after it has asked for the login and the
-- page, and has logged out again.
pub get_drac_type_reads :
    (browse : Browser) (host user password body answer page : Text) (kind : ℤ) (c : Console)
    → browse (root host ∷ []) ≡ some body
    → identify body ≡ kind
    → browse (root host ∷ login kind host user password ∷ []) ≡ some answer
    → browse (root host ∷ login kind host user password ∷ fetch kind host ∷ []) ≡ some page
    → Describes page kind c
    → get_drac_type browse host user password ≡ (
      ok (some c),
      root host ∷ login kind host user password ∷ fetch kind host ∷ logout kind host ∷ [],
    )
unfolding get_drac_type with_root
get_drac_type_reads browse host user password body answer page kind c first same a p d =
    rw (first, with_root, same) (go kind c a p d)
  where
    go :
        (kind : ℤ) (c : Console)
        → browse (root host ∷ login kind host user password ∷ []) ≡ some answer
        → browse (root host ∷ login kind host user password ∷ fetch kind host ∷ []) ≡ some page
        → Describes page kind c
        → connect browse (root host ∷ []) host user password kind ≡ (
          ok (some c),
          root host ∷ login kind host user password ∷ fetch kind host ∷ logout kind host ∷ [],
        )
    go kind c a p (as_drac5 id ctrl video named sends shows small small') =
        (connect_kinds browse (root host ∷ []) host user password drac5).0 refl
        ∙ session-some browse (root host ∷ []) _ _ _ console5 answer page _ a p
            (console-Describes page drac5 _ (as_drac5 id ctrl video named sends shows small small'))
    go kind c a p (as_drac4 number id ctrl counted named sends small) =
        (connect_kinds browse (root host ∷ []) host user password drac4).1 refl
        ∙ session-some browse (root host ∷ []) _ _ _ console4 answer page _ a p
            (console-Describes page drac4 _ (as_drac4 number id ctrl counted named sends small))

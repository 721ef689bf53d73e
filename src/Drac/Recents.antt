-- ===== src/Drac/Recents.antt =====
-- The list recentDracs: the hosts that were connected to, the latest first, ten at most, with the
-- credentials that they were given.
pub mod Mru
use dracd.Common.{
  ℕ, List, [], ◌∷◌, Option, none, some, Bool, false, Text, length, ltb, same_bytes, if◌then◌else◌,
}

pub record RecentDracEntry : Type 0 where
  pub id : ℕ
  pub host : Text
  pub connected : Bool
  pub start_time : ℕ
  pub formatted_time : Text
  pub username : Text
  pub password : Text

pub record Credentials : Type 0 where
  pub login : Text
  pub passwd : Text

-- The entry that setupDracClient pushes; the fields that it leaves out are zero.
abbrev pub entry : Text → ℕ → Credentials → RecentDracEntry
entry host now c = record {
  id = 0;
  host = host;
  connected = false;
  start_time = now;
  formatted_time = [];
  username = c.login;
  password = c.passwd;
}

-- `if s == "" { s = t }`
abbrev pub or_default : Text → Text → Text
or_default [] t = t
or_default (c ∷ s) t = c ∷ s

-- The loop of setupDracClient over recentDracs: the entry of the host is removed, and gives what the
-- credentials lack. After Remove the element has no Next, so the loop ends there.
unfoldable pub recall :
    Text → Credentials → List RecentDracEntry → Credentials × List RecentDracEntry
recall host c [] = (c, [])
recall host c (de ∷ rest) =
    let (c', rest') = recall host c rest in
    if same_bytes de.host host
    then (
      record { login = or_default c.login de.username; passwd = or_default c.passwd de.password },
      rest,
    )
    else (c', de ∷ rest')

-- recentDracs.Remove(recentDracs.Back())
unfoldable pub remove_back {ℓ} : {A : Type ℓ} → List A → List A
remove_back [] = []
remove_back (x ∷ []) = []
remove_back (x ∷ y ∷ xs) = x ∷ remove_back (y ∷ xs)

-- PushFront, and the limit of ten.
unfoldable pub push : RecentDracEntry → List RecentDracEntry → List RecentDracEntry
push de rest =
    let pushed = de ∷ rest in if ltb 10 (length pushed) then remove_back pushed else pushed

-- What setupDracClient does to the list for a host that is not connected: the credentials that the
-- session will use, and the new list.
unfoldable pub remember :
    Text → ℕ → Credentials → List RecentDracEntry → Credentials × List RecentDracEntry
remember host now c recents =
    let (c', rest) = recall host c recents in (c', push (entry host now c') rest)

-- getRecentDrac.
unfoldable pub get_recent_drac : Text → List RecentDracEntry → Option RecentDracEntry
get_recent_drac host [] = none
get_recent_drac host (de ∷ rest) =
    if same_bytes de.host host then some de else get_recent_drac host rest

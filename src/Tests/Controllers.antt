-- ===== src/Tests/Controllers.antt =====
-- A DRAC 4 at a host.
use dracd.Common.{◌≡◌, refl, [], ◌∷◌, some, Text, pos, negsuc, ok, arith}
use dracd.Common.Decimal.{decimal, digits}
use dracd.Common.Texts.{codes, index_of}
use dracd.Detect.{Browser, Console, drac4, identify, get_drac_type}
use dracd.Detect.Login.{root, login, fetch, logout}
use dracd.Detect.Reading.{Names, as_drac4, get_drac_type_reads}

abbrev root_page : Text
root_page = codes "var s_oemProductName = \"DRAC 4\";"

abbrev console_page : Text
console_page = codes "var nSessionNum = 12;var sSessionId = \"ab\";var nPort = 7;"

-- It answers to three requests in turn, and to those that follow.
abbrev turns : Browser
turns [] = some []
turns (first ∷ []) = some root_page
turns (first ∷ second ∷ []) = some []
turns (first ∷ second ∷ rest) = some console_page

abbrev console : Console
console = record {
  session_user = codes "12";
  session_password = codes "ab";
  drac_type = drac4;
  ctrl_port = pos 7;
  video_port = negsuc 0;
}

numbered : Names console_page (codes "var nSessionNum = ") (codes "12")
unfolding index_of
numbered = record {
  before = [];
  after = codes "var sSessionId = \"ab\";var nPort = 7;";
  ending = b';';
  written = refl;
  leftmost = refl;
  plain = (refl, (refl, tt));
  present = λ e. cc;
  ends = refl;
}

identified : Names console_page (codes "var sSessionId = \"") (codes "ab")
unfolding index_of
identified = record {
  before = codes "var nSessionNum = 12;";
  after = codes ";var nPort = 7;";
  ending = 34;
  written = refl;
  leftmost = refl;
  plain = (refl, (refl, tt));
  present = λ e. cc;
  ends = refl;
}

sent_to : Names console_page (codes "var nPort = ") (decimal 7)
unfolding index_of digits
sent_to = record {
  before = codes "var nSessionNum = 12;var sSessionId = \"ab\";";
  after = [];
  ending = b';';
  written = refl;
  leftmost = refl;
  plain = (refl, tt);
  present = λ e. cc;
  ends = refl;
}

get_drac_type_reads_example : get_drac_type turns (7 ∷ []) (8 ∷ []) (9 ∷ []) ≡ (
  ok (some console),
  root (7 ∷ [])
      ∷ login drac4 (7 ∷ []) (8 ∷ []) (9 ∷ [])
      ∷ fetch drac4 (7 ∷ [])
      ∷ logout drac4 (7 ∷ [])
      ∷ [],
)
unfolding identify
get_drac_type_reads_example =
    get_drac_type_reads turns (7 ∷ []) (8 ∷ []) (9 ∷ []) root_page [] console_page drac4 console
      refl refl refl refl
      (as_drac4 (codes "12") (codes "ab") 7 numbered identified sent_to (omega arith))

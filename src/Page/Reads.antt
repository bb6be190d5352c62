-- ===== src/Page/Reads.antt =====
-- getFileContent, getRemoteContent and the HTML parser as loadUri calls them: how they end.
use cpp_custom.Html.Result.{Fine, Result}
use cpp_custom.Prelude.{Bool, Bytes, List, Option, false, none, some, ℕ, refl, sym, subst, ◌≢◌}
use cpp_custom.Html.Tree.{Dom}
use cpp_custom.Html.Parser.{parse_html_to_dom, parse_html}
use cpp_custom.Html.Fragment.{parse_html_to_dom-Fine}
use cpp_custom.Html.Total.{parse_html-total}
use cpp_custom.Browser.Content.{get_file_content, Memory, empty_memory, c_string}
use cpp_custom.Browser.Fetch.{get_file_content-without, receive}
use cpp_custom.Page.Types.{◌>>=◌, done}
use cpp_custom.Page.Draw.{or_undefined}
use cpp_custom.Page.Script.{from_result}
use cpp_custom.Page.Load.{string_of, get_remote_content, or_fuel}
use cpp_custom.Page.Outcome.{Ends, Ends-bind}

optional-Ends : {A : Type 0} (o : Option A) → Ends false (λ a. Unit {0}) (or_undefined o)
optional-Ends none = tt
optional-Ends (some a) = tt

pub file_content-Ends :
    (o : Option Bytes)
    → Ends false (λ c. Unit {0}) (or_fuel (get_file_content o) >>= λ t. done (some t))
unfolding get_file_content
file_content-Ends none = tt
file_content-Ends (some file) =
    subst (λ o. Ends false (λ c. Unit {0}) (or_fuel o >>= λ t. done (some t)))
      (sym (get_file_content-without file)) tt

string_of-Ends : (o : Option Memory) → Ends false (λ t. Unit {0}) (string_of o)
string_of-Ends none = tt
string_of-Ends (some mem) = optional-Ends (c_string mem.buf)

pub remote_content-Ends :
    (fits : ℕ → Bool) (o : Option (List Bytes))
    → Ends false (λ c. Unit {0}) (get_remote_content fits o >>= λ t. done (some t))
unfolding get_remote_content
remote_content-Ends fits none = tt
remote_content-Ends fits (some chunks) =
    Ends-bind false (λ t. Unit {0}) (λ c. Unit {0}) (string_of (receive fits chunks empty_memory)) _
      (string_of-Ends (receive fits chunks empty_memory)) λ t u. tt

from_result-Ends :
    {A : Type 0} (r : Result A)
    → Fine (λ a. Unit {0}) r
    → Ends false (λ a. Unit {0}) (from_result r)
from_result-Ends (Result.ok a) h = tt
from_result-Ends Result.diverges h = tt
from_result-Ends Result.thrown h = tt
from_result-Ends Result.out_of_fuel h = h

total-Fine : {A : Type 0} (r : Result A) → r ≢ Result.out_of_fuel → Fine (λ a. Unit {0}) r
total-Fine (Result.ok a) h = tt
total-Fine Result.diverges h = tt
total-Fine Result.thrown h = tt
total-Fine Result.out_of_fuel h = h refl

pub parse_html-Ends : (html : Bytes) → Ends false (λ t. Unit {0}) (from_result (parse_html html))
parse_html-Ends html =
    from_result-Ends (parse_html html) (total-Fine (parse_html html) (parse_html-total html))

pub parse_html_to_dom-Ends :
    (html : Bytes) (t : Dom) → Ends false (λ t'. Unit {0}) (from_result (parse_html_to_dom html t))
parse_html_to_dom-Ends html t =
    from_result-Ends (parse_html_to_dom html t) (parse_html_to_dom-Fine html t)

-- ===== src/Playwright/Frames.antt =====
-- playwright.go: the line that a frame leaves in the session's log.
pub mod Bounds
use selenwright.Prelude.{
  ℕ, ◌-◌, Bool, true, false, List, [], ◌∷◌, ◌++◌, Option, none, some, Str, StrMap, lit, ◌==◌,
  lookup, length, take, is_empty, is_space, join, push_first, ltb, not, if◌then◌else◌, ℤ,
}

-- `words` from inside or outside a word.
unfoldable pub words : Bool → Str → List Str
words false [] = []
words false (c ∷ s) = if is_space c then words false s else push_first c (words true s)
words true [] = [] ∷ []
words true (c ∷ s) = if is_space c then [] ∷ words false s else push_first c (words true s)

-- `strings.Join(strings.Fields(s), " ")`
unfoldable pub one_line : Str → Str
unfolding words
one_line s = join b' ' (words false s)

abbrev pub pw_interesting_params : List Str
pw_interesting_params =
    lit "url"
    ∷ lit "selector"
    ∷ lit "value"
    ∷ lit "text"
    ∷ lit "key"
    ∷ lit "expression"
    ∷ lit "name"
    ∷ lit "state"
    ∷ []

abbrev pub pw_max_value_len : ℕ
pw_max_value_len = 120

unfoldable pub shorten : Str → Str
shorten s =
    if ltb pw_max_value_len (length s) then take (pw_max_value_len - 3) s ++ lit "..." else s

-- The parameters of a message: `none` is a value that is no JSON string.
abbrev pub Params : Type 0
Params = StrMap (Option Str)

-- The text of a parameter; what is missing, no string or empty is passed over alike.
unfoldable pub param_text : Params → Str → Str
param_text params key = elim (lookup key params) [
  | none ↦ []
  | some value ↦ elim value [ none ↦ [] | some s ↦ s ]
]

unfoldable pub playwright_parts : Params → List Str → List Str
unfolding one_line shorten param_text
playwright_parts params [] = []
playwright_parts params (key ∷ keys) =
    let s = param_text params key in
    let rest = playwright_parts params keys in
    if is_empty s then rest else (key ++ b'=' ∷ shorten (one_line s)) ∷ rest

unfoldable pub extract_playwright_params : Params → Str
unfolding playwright_parts
extract_playwright_params params = join b' ' (playwright_parts params pw_interesting_params)

pub record PwProtoError : Type 0 where
  pub name : Str
  pub error : Str
  pub message : Str

-- A text frame, as far as its JSON is read.
pub record PwProtoSummary : Type 0 where
  pub id : Option ℤ
  pub guid : Str
  pub method : Str
  pub params : Params
  pub error : Option PwProtoError
  pub result : Str

pub data Frame : Type 0 where
  binary : ℕ → Frame
  malformed : Frame
  text : PwProtoSummary → Frame

abbrev to_server : Str
to_server = 226 ∷ 134 ∷ 146 ∷ []

abbrev to_client : Str
to_client = 226 ∷ 134 ∷ 144 ∷ []

abbrev boxed : Str
boxed = 226 ∷ 138 ∷ 158 ∷ []

abbrev cross : Str
cross = 226 ∷ 156 ∷ 149 ∷ []

-- `before` and `after` around a text, unless there is none.
unfoldable pub enclosed : Str → Str → Str → Str
enclosed before after [] = []
enclosed before after (c ∷ s) = before ++ (c ∷ s) ++ after

-- `[id=…]`
unfoldable pub id_tag : (ℤ → Str) → Option ℤ → Str
id_tag itoa none = []
id_tag itoa (some i) = lit "[id=" ++ itoa i ++ lit "]"

unfoldable pub client_line : (ℤ → Str) → PwProtoSummary → Str
unfolding enclosed id_tag extract_playwright_params
client_line itoa msg =
    lit " "
    ++ to_server
    ++ lit " "
    ++ msg.method
    ++ enclosed (lit " ") [] (id_tag itoa msg.id)
    ++ enclosed (lit " [") (lit "]") msg.guid
    ++ enclosed (lit " ") [] (extract_playwright_params msg.params)

unfoldable pub error_line : (ℤ → Str) → Option ℤ → PwProtoError → Str
unfolding enclosed id_tag shorten one_line
error_line itoa id e =
    lit " "
    ++ cross
    ++ lit " "
    ++ enclosed [] (lit " ") (id_tag itoa id)
    ++ (if is_empty e.name then e.error else e.name)
    ++ (if is_empty e.message then [] else lit ": " ++ one_line (shorten e.message))

-- A message of the server; `none` where nothing is logged.
unfoldable pub server_line : (ℤ → Str) → PwProtoSummary → Option Str
unfolding enclosed id_tag error_line
server_line itoa msg = elim msg.error [
  | some e ↦ some (error_line itoa msg.id e)
  | none ↦
      if not (is_empty msg.method)
      then some
          (lit " " ++ to_client ++ lit " " ++ msg.method ++ enclosed (lit " [") (lit "]") msg.guid)
      else (elim msg.id [
        | none ↦ none
        | some i ↦ some (
            lit " "
            ++ to_client
            ++ lit " "
            ++ id_tag itoa (some i)
            ++ (if is_empty msg.result then [] else lit " ok"))
      ])
]

-- `stamp` is the time of day, `itoa` and `utoa` print numbers; the empty line is not written.
unfoldable pub format_playwright_frame : (ℤ → Str) → (ℕ → Str) → Str → Str → Frame → Str
unfolding client_line server_line
format_playwright_frame itoa utoa stamp source (binary n) =
    stamp
    ++ lit " "
    ++ boxed
    ++ lit " binary "
    ++ utoa n
    ++ lit " bytes "
    ++ (if source == lit "client"
        then lit "c" ++ to_server ++ lit "s"
        else lit "s" ++ to_server ++ lit "c")
format_playwright_frame itoa utoa stamp source malformed = []
format_playwright_frame itoa utoa stamp source (text msg) =
    if source == lit "client"
    then stamp ++ client_line itoa msg
    else (elim (server_line itoa msg) [ none ↦ [] | some line ↦ stamp ++ line ])

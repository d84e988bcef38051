-- ===== src/Http/Request.antt =====
-- http_server/http/Request.cpp: the head of a request and what is asked of it.
pub mod Lines
pub mod Printing
pub mod Blank
pub mod Refused
use ivos.Base.{
  ℕ, ◌+◌, ◌==◌, ltb, Bool, true, false, ◌||◌, List, [], ◌∷◌, ◌++◌, Option, none, some, Outcome,
  done, fault, ◌>>=◌, if◌then◌else◌, length, maybe,
}
use ivos.Http.Text.{Text, codes, drop, same, find, string_split, last_token}

pub data RequestType : Type 0 where
  get post head options put delete : RequestType

-- A `std::map` from text to text; its order is never looked at.
abbrev pub Fields : Type 0
Fields = List (Text × Text)

abbrev pub field_set : (name value : Text) → Fields → Fields
field_set name value [] = (name, value) ∷ []
field_set name value ((n, v) ∷ fs) =
    let rest = field_set name value fs in if same n name then (n, value) ∷ fs else (n, v) ∷ rest

abbrev pub field_get : (name : Text) → Fields → Option Text
field_get name [] = none
field_get name ((n, v) ∷ fs) = if same n name then some v else field_get name fs

-- `_type` is not initialised: `none`.
pub record Request : Type 0 where
  pub type : Option RequestType
  pub path : Text
  pub version : Text
  pub fields : Fields
  pub boundary : Text

abbrev pub new_request : Request
new_request = record { type = none; path = []; version = []; fields = []; boundary = [] }

abbrev pub newline : Text
newline = 10 ∷ []

abbrev pub space : Text
space = 0x20 ∷ []

abbrev pub colon : Text
colon = codes ": "

abbrev pub semicolon : Text
semicolon = codes "; "

abbrev pub equals : Text
equals = codes "="

abbrev pub crlf : Text
crlf = 13 ∷ 10 ∷ []

abbrev pub type_name : RequestType → Text
type_name get = codes "GET"
type_name post = codes "POST"
type_name head = codes "HEAD"
type_name options = codes "OPTIONS"
type_name put = codes "PUT"
type_name delete = codes "DELETE"

-- _string_to_type.at(input); `none` is the exception std::out_of_range.
abbrev pub to_request_type : Text → Option RequestType
to_request_type input =
    if same input (type_name get)
    then some get
    else if same input (type_name post)
    then some post
    else if same input (type_name options)
    then some options
    else if same input (type_name head)
    then some head
    else if same input (type_name put)
    then some put
    else if same input (type_name delete)
    then some delete
    else none

-- The assignments from the first line; an unknown method is an exception that nothing catches, and
-- fewer than three tokens are an access out of range.
abbrev pub read_first : (tokens : List Text) → Request → Outcome Request
read_first (method ∷ path ∷ version ∷ rest) r =
    maybe (to_request_type method) fault
      λ t. done (record r { type = some t; path = path; version = version })
read_first tokens r = fault

abbrev pub with_field : (tokens : List Text) → Request → Request
with_field (name ∷ value ∷ rest) r = record r { fields = field_set name value r.fields }
with_field tokens r = r

-- The loop over the lines behind the first.
unfoldable pub read_fields : (lines : List Text) → Request → Outcome Request
read_fields [] r = done r
read_fields (line ∷ lines) r =
    string_split line colon >>= λ tokens. read_fields lines (with_field tokens r)

abbrev pub second : List Text → Outcome Text
second (a ∷ b ∷ rest) = done b
second tokens = fault

-- The loop over the parts of the content type.
unfoldable pub read_boundary : (tokens : List Text) → Request → Outcome Request
read_boundary [] r = done r
read_boundary (token ∷ tokens) r =
    maybe (find (codes "boundary") token) (read_boundary tokens r) λ _.
      string_split token equals >>= λ parts.
      second parts >>= λ b. read_boundary tokens (record r { boundary = b })

-- `string_split` leaves its argument, here the field itself, as the last token.
unfoldable pub read_content_type : Request → Outcome Request
read_content_type r = maybe (field_get (codes "Content-Type") r.fields) (done r) λ value.
    string_split value semicolon >>= λ tokens.
    read_boundary tokens
      (record r { fields = field_set (codes "Content-Type") (last_token tokens) r.fields })

abbrev pub first_token : List Text → Text
first_token [] = []
first_token (t ∷ ts) = t

abbrev pub other_tokens : List Text → List Text
other_tokens [] = []
other_tokens (t ∷ ts) = ts

unfoldable pub parse : (request : Text) → Request → Outcome Request
parse request r = do
  lines ← string_split request newline
  tokens ← string_split (first_token lines) space
  r1 ← read_first tokens r
  r2 ← read_fields (other_tokens lines) r1
  read_content_type r2

-- _type_to_string.at(_type); a read of the type that was never set is undefined.
abbrev pub get_type_as_string : Request → Outcome Text
get_type_as_string r = maybe r.type fault λ t. done (type_name t)

abbrev pub has_path : Request → Bool
has_path r = ltb 1 (length r.path)

abbrev pub keep_alive : Request → Bool
keep_alive r =
    maybe (field_get (codes "Connection") r.fields) false λ v. same v (codes "keep-alive")

-- find_last_of
abbrev pub find_last : (c : ℕ) → Text → Option ℕ
find_last c [] = none
find_last c (x ∷ s) = maybe (find_last c s) (if x == c then some 0 else none) λ n. some (n + 1)

-- substr(find_last_of(".") + 1); npos + 1 is 0.
abbrev pub get_path_extension : Request → Text
get_path_extension r = maybe (find_last b'.' r.path) r.path λ n. drop (n + 1) r.path

abbrev pub is_script : Request → Bool
is_script r =
    same (get_path_extension r) (codes "py")
    || same (get_path_extension r) (codes "sh")
    || same (get_path_extension r) (codes "php")

abbrev pub get_field : (name : Text) → Request → Text
get_field name r = maybe (field_get name r.fields) [] λ v. v

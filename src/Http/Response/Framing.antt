-- ===== src/Http/Response/Framing.antt =====
-- How a reader finds the end of a response.
use ivos.Base.{
  ℕ, ◌≡◌, ◌==◌, true, false, refl, ap, ◌∙◌, Bool-cases, Option-cases, ◌⊎◌, inl, inr, [], ◌∷◌, ◌++◌,
  Option, none, some, done, arith, length, maybe,
}
use ivos.Http.Text.{Text, codes, drop, same, starts_with}
use ivos.Http.Text.After.{after, after-cons, after-skip, starts_with-append}
use ivos.Http.Text.Find.{Lacks}
use ivos.Http.Text.Decimal.{decimal, read_number, read_number-decimal, Lacks-decimal}
use ivos.Http.Request.{Fields, field_get, crlf, find_last}
use ivos.Http.Response.{
  Files, Response, new_response, default_directory, mime_types, mime_type_of, after_content_type,
  framed, ok_status, not_found_status, unavailable_status, created_status, create_file_response,
  create_service_unavailable_response, create_string_response, create_created_response,
}

-- What stands behind the first blank line.
abbrev pub body_of : Text → Option Text
body_of response = after (crlf ++ crlf) response

-- The number of the first field named Content-Length.
abbrev pub content_length_of : Text → Option ℕ
content_length_of response =
    maybe (after (codes "Content-Length: ") response) none λ rest. some (read_number 0 rest)

-- A reader gets the content, and knows its length from the head.
pub record Framed (status content response : Text) : Type 0 where
  pub starts : starts_with (codes "HTTP/1.1" ++ status) response ≡ true
  pub body : body_of response ≡ some content
  pub counted : content_length_of response ≡ some (length content)

AllLack : (c : ℕ) → Fields → Type 0
AllLack c [] = Unit {0}
AllLack c ((n, v) ∷ fs) = Lacks c v × AllLack c fs

field_get-Lacks :
    (c : ℕ) (name default : Text) (fs : Fields)
    → Lacks c default
    → AllLack c fs
    → Lacks c (maybe (field_get name fs) default λ v. v)
unfolding AllLack
field_get-Lacks c name default [] h all = h
field_get-Lacks c name default ((n, v) ∷ fs) h (hv, all) = elim (Bool-cases (same n name)) [
  | inl here ↦ rw here hv
  | inr other ↦ rw other (field_get-Lacks c name default fs h all)
]

mime_types-Lacks : AllLack 13 mime_types
unfolding AllLack
mime_types-Lacks = ground arith

Lacks-mime_type_of : (path : Text) → Lacks 13 (mime_type_of path)
Lacks-mime_type_of path = elim (Option-cases (find_last b'.' path)) [
  | inl no_dot ↦ rw no_dot (ground arith)
  | inr (p, dot) ↦ rw dot (
      field_get-Lacks 13 (drop p path) (codes "text/html") mime_types (ground arith)
        mime_types-Lacks)
]

abbrev blank : Text
blank = crlf ++ crlf

after-line :
    (x : ℕ) (s : Text) → (13 == x) ≡ false → after blank (13 ∷ 10 ∷ x ∷ s) ≡ after blank (x ∷ s)
after-line x s h = after-cons blank 13 (10 ∷ x ∷ s) (rw h refl) ∙ after-cons blank 10 (x ∷ s) refl

-- A status in which neither end of a search lies.
record IsStatus (status : Text) : Type 0 where
  one_line : Lacks 13 status
  no_field :
      (rest : Text)
      → after
          (codes "Content-Length: ")
          ((codes "HTTP/1.1" ++ status) ++ (crlf ++ (codes "Content-Length: " ++ rest)))
        ≡ some rest

ok_IsStatus : IsStatus ok_status
ok_IsStatus = record { one_line = ground arith; no_field = λ rest. refl }

not_found_IsStatus : IsStatus not_found_status
not_found_IsStatus = record { one_line = ground arith; no_field = λ rest. refl }

unavailable_IsStatus : IsStatus unavailable_status
unavailable_IsStatus = record { one_line = ground arith; no_field = λ rest. refl }

created_IsStatus : IsStatus created_status
created_IsStatus = record { one_line = ground arith; no_field = λ rest. refl }

body_of-framed :
    (status mime content : Text) (n : ℕ)
    → Lacks 13 status
    → Lacks 13 mime
    → body_of (framed status n mime content) ≡ some content
body_of-framed status mime content n one_line lacks =
    let typed = codes "Content-Type: " ++ (mime ++ after_content_type content) in
    let counted = codes "Content-Length: " ++ (decimal n ++ (crlf ++ typed)) in
    after-skip 13 (10 ∷ crlf) (codes "HTTP/1.1" ++ status) (crlf ++ counted)
      (refl, (refl, (refl, (refl, (refl, (refl, (refl, (refl, one_line))))))))
    ∙ after-line b'C' (drop 1 counted) refl
    ∙ after-skip 13 (10 ∷ crlf) (codes "Content-Length: ") (decimal n ++ (crlf ++ typed))
        (ground arith)
    ∙ after-skip 13 (10 ∷ crlf) (decimal n) (crlf ++ typed) (Lacks-decimal 13 n (omega arith))
    ∙ after-line b'C' (drop 1 typed) refl
    ∙ after-skip 13 (10 ∷ crlf) (codes "Content-Type: ") (mime ++ after_content_type content)
        (ground arith)
    ∙ after-skip 13 (10 ∷ crlf) mime (after_content_type content) lacks

framed-Framed :
    (status mime content : Text)
    → IsStatus status
    → Lacks 13 mime
    → Framed status content (framed status (length content) mime content)
framed-Framed status mime content known lacks = record {
  starts = starts_with-append (codes "HTTP/1.1" ++ status) _;
  body = body_of-framed status mime content (length content) known.one_line lacks;
  counted = rw (known.no_field _) (ap some (read_number-decimal (length content) _));
}

-- What a file response carries: the file under www/, or not_found.html where there is none.
abbrev pub Served : Files → (path status content : Text) → Type 0
Served files path status content =
    ((files (default_directory ++ path) ≡ some content) × (status ≡ ok_status))
    ⊎ ((files (default_directory ++ path) ≡ none)
        × (files (codes "www/not_found.html") ≡ some content)
        × (status ≡ not_found_status))

-- For a file under www/, and for one that is missing when not_found.html is there, a response is made
-- from which a reader gets the status line, the length in bytes and after the blank line the whole file,
-- or not_found.html with status 404.
pub create_file_response-Framed :
    (files : Files) (path status content : Text)
    → Served files path status content
    → (r : Response) × (create_file_response files path new_response ≡ done r)
      × Framed status content r.response
unfolding create_file_response
create_file_response-Framed files path status content (inl (found, ok)) = (
  record {
    response = framed ok_status (length content) (mime_type_of path) content;
    content = content;
    mime_type = mime_type_of path;
    content_length = some (length content);
  },
  rw found refl,
  rw ok (framed-Framed ok_status (mime_type_of path) content ok_IsStatus (Lacks-mime_type_of path)),
)
create_file_response-Framed files path status content (inr (missing, found, not_found)) = (
  record {
    response = framed not_found_status (length content) (codes "text/html") content;
    content = content;
    mime_type = codes "text/html";
    content_length = some (length content);
  },
  rw (missing, found) refl,
  rw not_found (
      framed-Framed not_found_status (codes "text/html") content not_found_IsStatus (ground arith)),
)

pub create_service_unavailable_response-Framed :
    (files : Files) (content : Text)
    → files (codes "www/service_unavailable.html") ≡ some content
    → (r : Response) × (create_service_unavailable_response files new_response ≡ done r)
      × Framed unavailable_status content r.response
unfolding create_service_unavailable_response
create_service_unavailable_response-Framed files content found = (
  record {
    response = framed unavailable_status (length content) (codes "text/html") content;
    content = content;
    mime_type = codes "text/html";
    content_length = some (length content);
  },
  rw found refl,
  framed-Framed unavailable_status (codes "text/html") content unavailable_IsStatus (ground arith),
)

pub create_string_response-Framed :
    (text : Text) → Framed ok_status text (create_string_response text new_response).response
create_string_response-Framed text =
    framed-Framed ok_status (codes "text/plain") text ok_IsStatus (ground arith)

pub create_created_response-Framed :
    Framed created_status (codes "received") (create_created_response new_response).response
create_created_response-Framed =
    framed-Framed created_status (codes "text/plain") (codes "received") created_IsStatus
      (ground arith)

-- ===== src/Http/Response.antt =====
-- http_server/http/Response.cpp: the text that is sent back. A file is its content; `none` is a file
-- that does not open.
pub mod Framing
use ivos.Base.{
  ℕ, ◌+◌, ◌==◌, Bool, true, false, List, [], ◌∷◌, ◌++◌, Option, none, some, Outcome, done, fault,
  ◌>>=◌, if◌then◌else◌, length, maybe,
}
use ivos.Http.Text.{Text, codes, drop}
use ivos.Http.Text.Decimal.{decimal}
use ivos.Http.Request.{Fields, field_get, crlf, find_last}

-- The file system, by the paths that the program opens.
abbrev pub Files : Type 0
Files = Text → Option Text

-- `_content_length` is not initialised: `none`.
pub record Response : Type 0 where
  pub response : Text
  pub content : Text
  pub mime_type : Text
  pub content_length : Option ℕ

abbrev pub new_response : Response
new_response = record {
  response = [];
  content = [];
  mime_type = codes "text/plain";
  content_length = none;
}

abbrev pub default_directory : Text
default_directory = codes "www"

abbrev pub mime_types : Fields
mime_types =
    (codes ".html", codes "text/html")
    ∷ (codes ".css", codes "text/css")
    ∷ (codes ".js", codes "text/javascript")
    ∷ (codes ".jpg", codes "image/jpeg")
    ∷ (codes ".jpeg", codes "image/jpeg")
    ∷ (codes ".png", codes "image/png")
    ∷ (codes ".gif", codes "image/gif")
    ∷ (codes ".bmp", codes "image/bmp")
    ∷ (codes ".ico", codes "image/x-icon")
    ∷ (codes ".svg", codes "image/svg+xml")
    ∷ (codes ".pdf", codes "application/pdf")
    ∷ (codes ".json", codes "application/json")
    ∷ (codes ".xml", codes "application/xml")
    ∷ (codes ".zip", codes "application/zip")
    ∷ (codes ".gzip", codes "application/gzip")
    ∷ (codes ".mp3", codes "audio/mpeg")
    ∷ (codes ".wav", codes "audio/wav")
    ∷ (codes ".mp4", codes "video/mp4")
    ∷ (codes ".mpeg", codes "video/mpeg")
    ∷ (codes ".webm", codes "video/webm")
    ∷ (codes ".ogg", codes "video/ogg")
    ∷ (codes ".flv", codes "video/x-flv")
    ∷ []

-- Whether the file opened, and the object.
unfoldable pub load_file : Files → (path : Text) → Response → Response × Bool
load_file files path r =
    maybe (files (default_directory ++ path)) (r, false)
      λ c. (record r { content = c; content_length = some (length c) }, true)

abbrev pub mime_type_of : (path : Text) → Text
mime_type_of path =
    maybe (find_last b'.' path) (codes "text/html")
      λ dot_pos. maybe (field_get (drop dot_pos path) mime_types) (codes "text/html") λ m. m

unfoldable pub set_mime_type : (path : Text) → Response → Response
set_mime_type path r = record r { mime_type = mime_type_of path }

abbrev pub after_content_type : (content : Text) → Text
after_content_type content = crlf ++ (crlf ++ content)

-- The lines of the head that all responses have, and the content.
abbrev pub framed : (status : Text) → (content_length : ℕ) → (mime_type content : Text) → Text
framed status n mime_type content =
    (codes "HTTP/1.1" ++ status)
    ++ (crlf
        ++ (codes "Content-Length: "
            ++ (decimal n
                ++ (crlf
                    ++ (codes "Content-Type: " ++ (mime_type ++ after_content_type content))))))

abbrev pub ok_status : Text
ok_status = codes " 200 OK"

abbrev pub not_found_status : Text
not_found_status = codes " 404 Not Found"

abbrev pub unavailable_status : Text
unavailable_status = codes " 503 Service Unavailable"

abbrev pub created_status : Text
created_status = codes " 201 CREATED"

-- The response from the fields of the object; a length that was never set is undefined.
abbrev pub reply : (status : Text) → Response → Outcome Response
reply status r =
    maybe r.content_length fault
      λ n. done (record r { response = framed status n r.mime_type r.content })

abbrev pub create_string_response : (response : Text) → Response → Response
create_string_response text r = record r {
  response = framed ok_status (length text) r.mime_type text;
}

abbrev pub create_created_response : Response → Response
create_created_response r = record r {
  response = framed created_status 8 r.mime_type (codes "received");
}

unfoldable pub create_not_found_response : Files → Response → Outcome Response
unfolding load_file set_mime_type
create_not_found_response files r =
    reply not_found_status
      (set_mime_type (codes "/not_found.html") (load_file files (codes "/not_found.html") r).0)

unfoldable pub create_service_unavailable_response : Files → Response → Outcome Response
unfolding load_file set_mime_type
create_service_unavailable_response files r = reply unavailable_status (
    set_mime_type (codes "/service_unavailable.html")
      (load_file files (codes "/service_unavailable.html") r).0)

unfoldable pub create_file_response : Files → (path : Text) → Response → Outcome Response
unfolding load_file set_mime_type create_not_found_response
create_file_response files path r =
    let (loaded, opened) = load_file files path r in
    if opened
    then reply ok_status (set_mime_type path loaded)
    else create_not_found_response files loaded

abbrev pub get_response_length : Response → ℕ
get_response_length r = length r.response

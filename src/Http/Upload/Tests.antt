-- ===== src/Http/Upload/Tests.antt =====
-- A small upload: it comes in one read with the head of the request, and the closing boundary is stored
-- with the content.
use ivos.Base.{◌≡◌, refl, [], ◌∷◌, ◌++◌, some, done, length, Text, codes}
use ivos.Http.Request.{Request, post, new_request, crlf}
use ivos.Http.Response.{new_response, create_created_response}
use ivos.Http.Client.{Client, fresh_client, send}
use ivos.Http.Text.{string_split}
use ivos.Http.Upload.{handle_post}

abbrev part : Text
part = codes "--q" ++ (crlf ++ (codes "filename=\"x\"" ++ (crlf ++ crlf)))

abbrev ending : Text
ending = codes "abc" ++ (crlf ++ (codes "--q--" ++ crlf))

abbrev client : Client
client = record fresh_client {
  remainder = part ++ ending;
  remaining_size = length (part ++ ending);
}

abbrev request : Request
request = record new_request {
  type = some post;
  fields = (codes "Content-Length", codes "33") ∷ [];
  boundary = codes "q";
}

small_upload :
    handle_post [] client request
    ≡ done (
      send
          (create_created_response new_response)
          (record client { remaining_size = length ending }),
      (codes "x", ending) ∷ [],
    )
unfolding handle_post string_split
small_upload = refl

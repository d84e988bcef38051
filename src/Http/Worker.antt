-- ===== src/Http/Worker.antt =====
-- `Server::handle_communication` of http_server/core/Server.cpp: what a client process does with a
-- connection. Log messages are left out.
pub mod Closing
pub mod Answers
pub mod Scripts
mod Tests
use ivos.Base.{
  ℕ, ◌+◌, ◌==◌, Bool, true, false, ◌&&◌, List, [], ◌∷◌, ◌++◌, Option, none, some, Outcome, done,
  fault, runs_on, ◌>>=◌, if◌then◌else◌, maybe,
}
use ivos.Http.Text.{Text, codes}
use ivos.Http.Request.{
  RequestType, Request, get, post, head, options, put, delete, new_request, get_type_as_string,
  has_path, is_script, keep_alive,
}
use ivos.Http.Response.{Files, new_response, create_file_response}
use ivos.Http.Client.{
  Client, Reading, Pipe, close, new_client, send, receive_headers, execute_script,
}
use ivos.Http.Upload.{handle_post}

-- What comes from outside in one round: the head of a request and the memory behind its copy, what
-- scripts print, and the reads of an upload.
pub record Round : Type 0 where
  pub reading : Reading
  pub beyond : Text
  pub pipe : Pipe
  pub uploads : List (Reading × Text)

abbrev pub is_post : RequestType → Bool
is_post post = true
is_post t = false

-- request.get_type() == RequestType::POST; the type may never have been set.
abbrev pub get_type : Request → Outcome RequestType
get_type r = maybe r.type fault λ t. done t

abbrev send_file : Files → (path : Text) → Client → Outcome Client
send_file files path c =
    create_file_response files path new_response >>= λ response. done (send response c)

unfoldable pub answer : Files → Round → Request → Client → Outcome Client
unfolding handle_post execute_script create_file_response send
answer files round r c = do
  t ← get_type r
  if is_post t
      then (handle_post round.uploads c r >>= λ (c', writes). done c')
      else if has_path r && is_script r
      then done (execute_script round.pipe r c)
      else if has_path r
      then send_file files r.path c
      else send_file files (codes "/index.html") c

abbrev pub close_unless : Bool → Client → Client
close_unless true c = c
close_unless false c = close c

-- What follows `receive_headers`.
unfoldable pub handle_request : Files → Round → Client × Request × Bool → Outcome Client
unfolding close answer
handle_request files round (c, r, false) = done (close c)
handle_request files round (c, r, true) = do
  _ ← get_type_as_string r
  c' ← answer files round r c
  done (close_unless (keep_alive r) c')

-- The loop over the requests of a connection: one round for each.
unfoldable pub serve : Files → List Round → Client → Outcome Client
unfolding receive_headers handle_request
serve files [] c = if c.is_open then runs_on else done c
serve files (round ∷ rounds) c =
    if c.is_open
    then (receive_headers round.reading round.beyond c new_request >>= λ received.
        handle_request files round received >>= λ c'. serve files rounds c')
    else done c

-- A connection from the descriptor on; the process then reports itself as available.
unfoldable pub handle_connection : Files → (accepted : Bool) → List Round → Outcome Client
unfolding new_client serve
handle_connection files accepted rounds = serve files rounds (new_client accepted)

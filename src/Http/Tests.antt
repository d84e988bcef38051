-- ===== src/Http/Tests.antt =====
-- The theorems on the server's parts at small inputs.
use ivos.Base.{
  false, ℕ, ◌==◌, if◌then◌else◌, ◌≡◌, true, refl, inl, inr, arith, List, [], ◌∷◌, ◌++◌, some, none,
  done, fault, Ensures, Text, codes, same, if◌then◌else◌,
}
use ivos.Http.Text.{string_split}
use ivos.Http.Text.Split.{Cut, string_split-Cut}
use ivos.Http.Request.{post, Fields, new_request, parse}
use ivos.Http.Request.Lines.{AllFields, print_request, set_all}
use ivos.Http.Request.Printing.{parse-print_request}
use ivos.Http.Request.Refused.{parse-fault}
use ivos.Http.Response.{Files, ok_status, not_found_status}
use ivos.Http.Client.{failed, chunk}
use ivos.Http.Upload.{Upload, receive_body}
use ivos.Http.Upload.Body.{reads_of, receive_body-Fills}
use ivos.Http.Server.{
  Server, forked, Turn, turns, receives, serves, waiting, gone, element, start_client_processes,
  run,
}
use ivos.Http.Server.Starting.{Reached}
use ivos.Http.Server.Cycle.{IsBack, run-IsBack}
use ivos.Http.Worker.{Round, handle_connection}
use ivos.Http.Worker.Closing.{IsClosed, handle_connection-IsClosed}
use ivos.Http.Worker.Answers.{Visit, IsVisit, Session, rounds_of, handle_connection-Session}

abbrev words : Text
words = codes "a, b\r, c"

string_split-Cut_example : Cut (b',' ∷ 0x20 ∷ []) words (string_split words (b',' ∷ 0x20 ∷ []))
string_split-Cut_example = string_split-Cut b',' (0x20 ∷ []) words

split_words : string_split words (b',' ∷ 0x20 ∷ []) ≡ done (codes "a" ∷ codes "b" ∷ codes "c" ∷ [])
unfolding string_split
split_words = refl

abbrev path : Text
path = codes "/a.css"

abbrev version : Text
version = codes "HTTP/1.1"

abbrev alive : Fields
alive = (codes "Connection", codes "keep-alive") ∷ []

alive-AllFields : AllFields alive
alive-AllFields = (
  record {
    clean_name = ground arith;
    clean_value = ground arith;
    no_colon = ground arith;
    not_cut = refl;
  },
  tt,
)

parse-print_request_example :
    parse (print_request post path version alive) new_request
    ≡ done (record new_request {
      type = some post;
      path = path;
      version = version;
      fields = set_all alive [];
    })
parse-print_request_example =
    parse-print_request post path version alive (ground arith) (ground arith) (ground arith)
      (ground arith) alive-AllFields refl

parse-fault_example :
    parse ((codes "PATCH" ++ (0x20 ∷ codes "/ HTTP/1.1")) ++ (13 ∷ 10 ∷ 13 ∷ 10 ∷ [])) new_request
    ≡ fault
parse-fault_example =
    parse-fault (codes "PATCH") (codes "/ HTTP/1.1") (13 ∷ 10 ∷ []) new_request (ground arith)
      (ground arith) (ground arith) (inl refl)

-- A directory with two files.
abbrev files : Files
files name =
    if same name (codes "www/a.css")
    then some (codes "b{}")
    else if same name (codes "www/not_found.html")
    then some (codes "no")
    else none

abbrev style : Visit
style = record {
  behind = codes "left over";
  path = path;
  version = version;
  fields = alive;
  status = ok_status;
  content = codes "b{}";
}

abbrev missing : Visit
missing = record {
  behind = [];
  path = codes "/b.css";
  version = version;
  fields = alive;
  status = not_found_status;
  content = codes "no";
}

style-IsVisit : IsVisit files style
style-IsVisit = record {
  idle = record { one_line = ground arith; no_field = refl };
  clean_path = ground arith;
  no_space = ground arith;
  clean_version = ground arith;
  version_no_space = ground arith;
  plain = alive-AllFields;
  no_type = refl;
  names_file = refl;
  no_script = refl;
  stays = refl;
  served = inl (refl, refl);
}

missing-IsVisit : IsVisit files missing
missing-IsVisit = record {
  idle = record { one_line = tt; no_field = refl };
  clean_path = ground arith;
  no_space = ground arith;
  clean_version = ground arith;
  version_no_space = ground arith;
  plain = alive-AllFields;
  no_type = refl;
  names_file = refl;
  no_script = refl;
  stays = refl;
  served = inr (refl, refl, refl);
}

handle_connection-Session_example :
    Session files
      (style ∷ missing ∷ [])
      []
      (handle_connection files true (rounds_of (style ∷ missing ∷ [])))
handle_connection-Session_example =
    handle_connection-Session files (style ∷ missing ∷ []) (style-IsVisit, (missing-IsVisit, tt))

-- A request in one read, then a read that fails.
abbrev cut_off : List Round
cut_off =
    record {
      reading = chunk (codes "GET / HTTP/1.1\r\n\r\n");
      beyond = [];
      pipe = λ _. none;
      uploads = [];
    }
    ∷ record { reading = failed; beyond = []; pipe = λ _. none; uploads = [] }
    ∷ []

handle_connection-IsClosed_example : Ensures IsClosed (handle_connection files true cut_off)
handle_connection-IsClosed_example = handle_connection-IsClosed files true cut_off

abbrev begun : Upload
begun = record { filename = codes "x"; writes = []; current_length = 2 }

abbrev body : List (Text × Text)
body = (codes "abc", []) ∷ (codes "de", []) ∷ []

receive_body-Fills_example :
    receive_body (codes "--q") 7 (reads_of body) begun
    ≡ done (record begun {
      writes = (codes "x", codes "abc") ∷ (codes "x", codes "de") ∷ [];
      current_length = 7;
    })
receive_body-Fills_example =
    receive_body-Fills (codes "--q") 7 body begun (omega arith, (omega arith, omega arith))
      (refl, (refl, tt))

-- One process, in the state in which it was started.
abbrev one : Server
one = record {
  client_processes = 70 ∷ [];
  socket_pairs = λ i. [];
  available_clients = 70 ∷ [];
  processes = λ i. if element i (70 ∷ []) == 0 then gone else waiting;
  descriptors = [];
  refused = [];
}

Reached-one : Reached (forked 70 ∷ []) [] one
unfolding run start_client_processes
Reached-one = record { begin = one; fresh = ground arith; begins = refl; runs = refl }

abbrev accepts : Turn
accepts = record {
  accepted = some 9;
  receive_fails = false;
  send_fails = false;
  tls = true;
  files = files;
}

run-IsBack_example :
    (i : ℕ) × (s' : Server) × (run
        (turns accepts ∷ receives true i ∷ serves files true (rounds_of (style ∷ [])) i ∷ [])
        one
      ≡ done s')
    × IsBack 70 i [] s'
    × Session files (style ∷ []) [] (handle_connection files true (rounds_of (style ∷ [])))
run-IsBack_example =
    run-IsBack (forked 70 ∷ []) [] one accepts 9 70 [] files (style ∷ []) Reached-one refl refl refl
      refl (style-IsVisit, tt)
